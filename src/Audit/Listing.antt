-- ===== src/Audit/Listing.antt =====
-- `audit_event_query`, `list_audit_events` and the rows of `export_audit_events` of
-- src/ai_examiner/services/audit.py. The table is a list; a query walks it in the order of the
-- listing, the newest event first and equal times by descending identifier. Identifiers are compared
-- by their code points.
use Prim.Native.Char.{code}
use mathlib.Core.List.{reverse}
use ai_examiner.Prelude.{
  ltb, leb, ◌==◌, if◌then◌else◌, opt_eq, truthy, length, take, keep, ℕ, zero, suc, ◌+◌, String,
  Bool, true, false, ◌&&◌, ◌||◌, Option, none, some, List, [], ◌∷◌, ◌++◌, str_eq,
}
use ai_examiner.Jobs.Model.{Outcome}
use ai_examiner.Audit.Model.{AuditEvent, same_outcome}

pub record AuditFilters : Type 0 where
  pub actor_id : Option String
  pub action : Option String
  pub resource_type : Option String
  pub resource_id : Option String
  pub outcome : Option Outcome
  pub occurred_after : Option ℕ
  pub occurred_before : Option ℕ
  pub request_id : Option String

-- `query.where(column == value)` if the filter has a value
abbrev pub fits : Option String → Option String → Bool
fits filter column = if truthy filter then opt_eq column filter else true

abbrev pub fits_outcome : Option Outcome → Outcome → Bool
fits_outcome none outcome = true
fits_outcome (some wanted) outcome = same_outcome outcome wanted

abbrev pub since : Option ℕ → ℕ → Bool
since none t = true
since (some start) t = leb start t

abbrev pub until : Option ℕ → ℕ → Bool
until none t = true
until (some end_time) t = ltb t end_time

-- The conditions of `audit_event_query`.
unfoldable pub matches : String → AuditFilters → AuditEvent → Bool
matches organization_id filters e =
    opt_eq e.organization_id (some organization_id)
    && (fits filters.actor_id e.actor_id
        && (fits filters.action (some e.action)
            && (fits filters.resource_type (some e.resource_type)
                && (fits filters.resource_id e.resource_id
                    && (fits_outcome filters.outcome e.outcome
                        && (fits filters.request_id (some e.request_id)
                            && (since filters.occurred_after e.occurred_at
                                && until filters.occurred_before e.occurred_at)))))))

-- `left < right` on texts
unfoldable pub less : String → String → Bool
less String.[] String.[] = false
less String.[] (String.◌∷◌ d t) = true
less (String.◌∷◌ c s) String.[] = false
less (String.◌∷◌ c s) (String.◌∷◌ d t) = ltb (code c) (code d) || ((code c == code d) && less s t)

-- Whether an event stands behind another in the listing; the condition of a cursor.
unfoldable pub is_beyond : AuditEvent → AuditEvent → Bool
is_beyond cursor e =
    ltb e.occurred_at cursor.occurred_at
    || ((e.occurred_at == cursor.occurred_at) && less e.id cursor.id)

-- `order_by(AuditEvent.occurred_at.desc(), AuditEvent.id.desc())`
unfoldable pub insert_event : AuditEvent → List AuditEvent → List AuditEvent
insert_event e [] = e ∷ []
insert_event e (f ∷ fs) = if is_beyond e f then e ∷ f ∷ fs else f ∷ insert_event e fs

unfoldable pub ordered : List AuditEvent → List AuditEvent
ordered [] = []
ordered (e ∷ es) = insert_event e (ordered es)

-- The whole answer of the query.
unfoldable pub event_rows : String → AuditFilters → List AuditEvent → List AuditEvent
event_rows organization_id filters events = keep (matches organization_id filters) (ordered events)

-- `select(AuditEvent).where(organization_id == ..., id == cursor)`
unfoldable pub find_event : String → String → List AuditEvent → Option AuditEvent
find_event organization_id id [] = none
find_event organization_id id (e ∷ es) =
    if opt_eq e.organization_id (some organization_id) && str_eq e.id id
    then some e
    else find_event organization_id id es

abbrev pub from_found : Option AuditEvent → List AuditEvent → List AuditEvent
from_found none rows = rows
from_found (some cursor) rows = keep (is_beyond cursor) rows

-- The rows behind a cursor; an empty or unknown one is no condition.
unfoldable pub from_cursor :
    String → Option String → List AuditEvent → List AuditEvent → List AuditEvent
from_cursor organization_id none events rows = rows
from_cursor organization_id (some id) events rows =
    if str_eq id "" then rows else from_found (find_event organization_id id events) rows

-- `events[-1].id`
unfoldable pub last_id : List AuditEvent → Option String
last_id [] = none
last_id (e ∷ []) = some e.id
last_id (e ∷ f ∷ fs) = last_id (f ∷ fs)

-- The page at the head of the rows.
unfoldable pub page : ℕ → List AuditEvent → List AuditEvent × Option String
page limit rows =
    let events = take (limit + 1) rows in
    let has_more = ltb limit (length events) in
    (take limit events, if has_more then last_id (take limit events) else none)

unfoldable pub list_audit_events :
    String → AuditFilters → Option String → ℕ → List AuditEvent → List AuditEvent × Option String
list_audit_events organization_id filters cursor limit events =
    page limit
      (from_cursor organization_id cursor events (event_rows organization_id filters events))

-- A client that follows the cursors, `n` pages at most.
abbrev pub next_pages : Option String → List AuditEvent → List AuditEvent
next_pages none rest = []
next_pages (some id) rest = rest

unfoldable pub all_pages :
    String → AuditFilters → ℕ → List AuditEvent → ℕ → Option String → List AuditEvent
all_pages organization_id filters limit events zero cursor = []
all_pages organization_id filters limit events (suc n) cursor =
    let (found, next) = list_audit_events organization_id filters cursor limit events in
    found ++ next_pages next (all_pages organization_id filters limit events n next)

-- The events of `export_audit_events`, oldest first, and whether there are more.
unfoldable pub exported : String → AuditFilters → ℕ → List AuditEvent → List AuditEvent × Bool
exported organization_id filters max_rows events =
    let found = take (max_rows + 1) (reverse (event_rows organization_id filters events)) in
    (take max_rows found, ltb max_rows (length found))
