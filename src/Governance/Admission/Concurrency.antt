-- ===== src/Governance/Admission/Concurrency.antt =====
-- The leases that `MemoryModelRateLimiter` lets an organization hold.
use ai_examiner.Prelude.{
  ltb, or_default, Option-cases, length, keep, length-keep, All, Dict, lookup, insert,
  length-insert, AllValues, AllValues-insert, AllValues-lookup, ℕ, ◌+◌, ◌*◌, ◌≤◌, String, inl, inr,
  not, List, [], ◌∷◌, arith, str_eq,
}
use ai_examiner.Governance.Policy.{Runtime}
use ai_examiner.Governance.Limiter.{
  MemoryModelRateLimiter, org_key, principal_key, concurrent_key, usage, live, refusal, counted,
  acquire, release,
}
use ai_examiner.Governance.Admission.{Event, asked, ended, after, run, refusal-none}

-- The requests allow `limit` leases at most.
abbrev pub AllowsAtMost : ℕ → Event → Type 0
AllowsAtMost limit (asked now a) = a.concurrent_limit ≤ limit
AllowsAtMost limit (ended lease) = Unit

abbrev pub HoldsAtMost : ℕ → Dict ℕ → Type 0
HoldsAtMost limit leases = length leases ≤ limit

held :
    (limit : ℕ) (key : String) (leases : Dict (Dict ℕ))
    → AllValues (HoldsAtMost limit) leases
    → length (or_default (lookup key leases) []) ≤ limit
held limit key leases h = elim (Option-cases (lookup key leases)) [
  | inl missing ↦ rw missing (omega arith)
  | inr (some_leases, found) ↦
      rw found (AllValues-lookup (HoldsAtMost limit) key some_leases leases h found)
]

event-HoldsAtMost :
    (rt : Runtime) (limit : ℕ) (s : MemoryModelRateLimiter) (e : Event)
    → AllowsAtMost limit e
    → AllValues (HoldsAtMost limit) s.leases
    → AllValues (HoldsAtMost limit) (after rt s e).leases
unfolding acquire release counted
event-HoldsAtMost rt limit s (ended lease) small h =
    elim (Option-cases (lookup lease.concurrent_key s.leases)) [
      | inl missing ↦ rw missing h
      | inr (leases, found) ↦
          let others = keep (λ l. not (str_eq l.0 lease.reservation_id)) leases in
          let before =
            AllValues-lookup (HoldsAtMost limit) lease.concurrent_key leases s.leases h found in
          rw found (
            AllValues-insert (HoldsAtMost limit) lease.concurrent_key others s.leases
              (omega
                (arith, length-keep (λ l. not (str_eq l.0 lease.reservation_id)) leases, before))
              h)
    ]
event-HoldsAtMost rt limit s (asked now a) small h =
    let org = usage (org_key rt now a) s.windows in
    let principal = usage (principal_key rt now a) s.windows in
    let old = or_default (lookup (concurrent_key a) s.leases) [] in
    let leases = live now old in
    let expiry = now + a.lease_seconds * 1000000 in
    let shorter = length-keep (λ lease. ltb now lease.1) old in
    let before = held limit (concurrent_key a) s.leases h in
    let pruned =
      AllValues-insert (HoldsAtMost limit) (concurrent_key a) leases s.leases
        (omega (arith, shorter, before)) h in
    let outcome : AllValues (HoldsAtMost limit) (acquire rt a now s).1.leases =
      elim (Option-cases (refusal now a org principal leases)) [
        | inl free ↦
            let (_, _, room) = refusal-none now a org principal leases free in
            rw free (
              AllValues-insert (HoldsAtMost limit) (concurrent_key a)
                (insert a.reservation_id expiry leases) (insert (concurrent_key a) leases s.leases)
                (omega (arith, length-insert a.reservation_id expiry leases, room, small)) pruned)
        | inr (why, refused) ↦ rw refused pruned
      ] in
    outcome

-- While no request allows more than `limit` leases, no organization comes to hold more, however
-- acquisitions and releases interleave.
pub run-HoldsAtMost :
    (rt : Runtime) (limit : ℕ) (s : MemoryModelRateLimiter) (es : List Event)
    → All (AllowsAtMost limit) es
    → AllValues (HoldsAtMost limit) s.leases
    → AllValues (HoldsAtMost limit) (run rt s es).leases
unfolding run
run-HoldsAtMost rt limit s [] small h = h
run-HoldsAtMost rt limit s (e ∷ es) (one, more) h =
    run-HoldsAtMost rt limit (after rt s e) es more (event-HoldsAtMost rt limit s e one h)
