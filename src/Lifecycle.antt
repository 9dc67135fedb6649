-- ===== src/Lifecycle.antt =====
-- src/ai_examiner/services/data_lifecycle.py: retention policies, legal holds, human review and the
-- requests of data subjects, with the routes of main.py and the worker of jobs.py that drive them.
pub mod Model
pub mod Reviews
pub mod Requests
pub mod Deletion
pub mod Execution
pub mod Retention
pub mod Steps
pub mod Frame
pub mod Aside
pub mod Projects
pub mod Held
pub mod Control
pub mod Decisions
pub mod Executed
pub mod DualControl
pub mod Races
