-- ===== src/Governance/Admission.antt =====
-- What `MemoryModelRateLimiter` admits, over any sequence of acquisitions and releases.
use ai_examiner.Prelude.{
  if◌then◌else◌, Bool-cases, or_default, Option-cases, length, All, Dict, lookup, insert,
  lookup-insert, ℕ, ◌+◌, ◌≤◌, ◌<◌, String, ◌≡◌, refl, ap, ◌∙◌, inl, inr, Bool, true, false, ◌&&◌,
  none, List, [], ◌∷◌, arith, str_eq, eq_iff,
}
pub mod Concurrency
use Prim.Native.Char.{Char, code}
use Prim.Native.String.{◌++◌ as join}
use Prim.Native.String.append
use ai_examiner.Governance.Policy.{Runtime}
use ai_examiner.Governance.Limiter.{
  RateLimitLease, Admission, Admitted, granted, MemoryModelRateLimiter, window_of, org_key,
  principal_key, concurrent_key, usage, live, refusal, counted, acquire, release,
}

pub data Event : Type 0 where
  asked : ℕ → Admission → Event
  ended : RateLimitLease → Event

abbrev pub is_granted : Admitted → Bool
is_granted (granted lease) = true
is_granted _ = false

abbrev pub after : Runtime → MemoryModelRateLimiter → Event → MemoryModelRateLimiter
after rt s (asked now a) = (acquire rt a now s).1
after rt s (ended lease) = release lease s

unfoldable pub run : Runtime → MemoryModelRateLimiter → List Event → MemoryModelRateLimiter
run rt s [] = s
run rt s (e ∷ es) = run rt (after rt s e) es

-- Whether an event is an admission that is counted under `key`.
abbrev pub admits : Runtime → String → MemoryModelRateLimiter → Event → Bool
admits rt key s (asked now a) = is_granted (acquire rt a now s).0 && str_eq (org_key rt now a) key
admits rt key s (ended lease) = false

abbrev units : Event → ℕ
units (asked now a) = a.token_units
units (ended lease) = 0

-- The requests that are admitted under a key, and their token units.
unfoldable pub admitted_requests : Runtime → String → MemoryModelRateLimiter → List Event → ℕ × ℕ
admitted_requests rt key s [] = (0, 0)
admitted_requests rt key s (e ∷ es) =
    let rest = admitted_requests rt key (after rt s e) es in
    if admits rt key s e then (rest.0 + 1, rest.1 + units e) else rest

-- The requests of a key state the limits `requests` and `tokens`, or lower ones.
abbrev pub IsLimited : Runtime → String → (requests tokens : ℕ) → Event → Type 0
IsLimited rt key requests tokens (asked now a) =
    str_eq (org_key rt now a) key ≡ true
    → (a.organization_limit ≤ requests) × (a.token_limit ≤ tokens)
IsLimited rt key requests tokens (ended lease) = Unit

-- The code of a text's first character.
first : String → ℕ
first String.[] = 0
first (String.◌∷◌ c t) = code c

first-join : (c : Char) (s t : String) → first (join (String.◌∷◌ c s) t) ≡ code c
unfolding first
first-join c s t = rw (append.cons c s t) refl

-- A window of a principal is none of an organization.
keys_apart : (x y : String) → str_eq (join "principal:" x) (join "org:" y) ≡ false
keys_apart x y = elim (Bool-cases (str_eq (join "principal:" x) (join "org:" y))) [
  | inl same ↦
      let equal : join "principal:" x ≡ join "org:" y =
        ground (arith, eq_iff (join "principal:" x) (join "org:" y)) in
      let left : first (join "principal:" x) ≡ 112 = first-join "p" "rincipal:" x in
      let right : first (join "org:" y) ≡ 111 = first-join "o" "rg:" y in
      let codes : first (join "principal:" x) ≡ first (join "org:" y) = ap first equal in
      absurd (omega (arith, left, right, codes))
  | inr apart ↦ apart
]

pub refusal-none :
    (now : ℕ) (a : Admission) (org principal : ℕ × ℕ) (leases : Dict ℕ)
    → refusal now a org principal leases ≡ none
    → (org.0 < a.organization_limit)
      × (org.1 + a.token_units ≤ a.token_limit)
      × (length leases < a.concurrent_limit)
unfolding refusal
refusal-none now a org principal leases h = ground arith

-- A granted request is counted under its own key and changes no other organization's count.
usage-counted :
    (rt : Runtime) (now : ℕ) (a : Admission) (org principal : ℕ × ℕ) (leases : Dict ℕ)
    (s : MemoryModelRateLimiter) (rest : String)
    → usage (join "org:" rest) (counted rt now a org principal leases s).windows ≡ (
        if str_eq (org_key rt now a) (join "org:" rest)
        then (org.0 + 1, org.1 + a.token_units)
        else usage (join "org:" rest) s.windows)
unfolding counted
usage-counted rt now a org principal leases s rest =
    let key = join "org:" rest in
    let windows = insert (org_key rt now a) (org.0 + 1, org.1 + a.token_units) s.windows in
    rw
      (
        lookup-insert (principal_key rt now a) key (principal.0 + 1, 0) windows,
        keys_apart _ rest,
        lookup-insert (org_key rt now a) key (org.0 + 1, org.1 + a.token_units) s.windows,
      )
      (ground arith)

-- What an event does to the count of an organization's window.
data Counted (rt : Runtime) (key : String) (requests tokens : ℕ) (s : MemoryModelRateLimiter)
    (e : Event) : Type 0 where
  admitted_one :
      (admits rt key s e ≡ true)
      → (usage key (after rt s e).windows
          ≡ ((usage key s.windows).0 + 1, (usage key s.windows).1 + units e))
      → ((usage key s.windows).0 < requests)
      → ((usage key s.windows).1 + units e ≤ tokens)
      → Counted rt key requests tokens s e
  left_alone :
      (admits rt key s e ≡ false)
      → (usage key (after rt s e).windows ≡ usage key s.windows)
      → Counted rt key requests tokens s e

event-Counted :
    (rt : Runtime) (rest : String) (requests tokens : ℕ) (s : MemoryModelRateLimiter) (e : Event)
    → IsLimited rt (join "org:" rest) requests tokens e
    → Counted rt (join "org:" rest) requests tokens s e
unfolding acquire release
event-Counted rt rest requests tokens s (ended lease) h = left_alone refl refl
event-Counted rt rest requests tokens s (asked now a) h =
    let key = join "org:" rest in
    let org = usage (org_key rt now a) s.windows in
    let principal = usage (principal_key rt now a) s.windows in
    let leases = live now (or_default (lookup (concurrent_key a) s.leases) []) in
    let pruned : MemoryModelRateLimiter = record s {
      leases = insert (concurrent_key a) leases s.leases;
    } in
    let window = usage-counted rt now a org principal leases pruned rest in
    let count = λ (s' : MemoryModelRateLimiter). usage key s'.windows in
    elim (Option-cases (refusal now a org principal leases)) [
      | inl free ↦
          let (few, small, _) = refusal-none now a org principal leases free in
          let state : (acquire rt a now s).1 ≡ counted rt now a org principal leases pruned =
            rw free refl in
          let yes : is_granted (acquire rt a now s).0 ≡ true = rw free refl in
          elim (Bool-cases (str_eq (org_key rt now a) key)) [
            | inl same ↦
                let own : org_key rt now a ≡ key = ground (arith, eq_iff (org_key rt now a) key) in
                let mine : org ≡ usage key s.windows = ap (λ k. usage k s.windows) own in
                let (most, all) = h same in
                let few' : (usage key s.windows).0 < a.organization_limit = rw mine at few in
                let small' : (usage key s.windows).1 + a.token_units ≤ a.token_limit =
                  rw mine at small in
                admitted_one (cc (yes, same))
                  (ap count state
                    ∙ window
                    ∙ rw same (ap (λ (u : ℕ × ℕ). (u.0 + 1, u.1 + a.token_units)) mine))
                  (omega (arith, few', most)) (omega (arith, small', all))
            | inr apart ↦ left_alone (ground arith) (ap count state ∙ window ∙ rw apart refl)
          ]
      | inr (why, refused) ↦
          let state : (acquire rt a now s).1 ≡ pruned = rw refused refl in
          let no : is_granted (acquire rt a now s).0 ≡ false = rw refused refl in
          left_alone (ground arith) (ap count state)
    ]

window_total :
    (rt : Runtime) (rest : String) (requests tokens : ℕ) (s : MemoryModelRateLimiter)
    (es : List Event)
    → All (IsLimited rt (join "org:" rest) requests tokens) es
    → let u = usage (join "org:" rest) s.windows in
      let total = admitted_requests rt (join "org:" rest) s es in
      u.0 ≤ requests → u.1 ≤ tokens → (u.0 + total.0 ≤ requests) × (u.1 + total.1 ≤ tokens)
unfolding admitted_requests
window_total rt rest requests tokens s [] h few small = (omega arith, omega arith)
window_total rt rest requests tokens s (e ∷ es) (h, hs) few small =
    let key = join "org:" rest in
    let s' = after rt s e in
    let later = window_total rt rest requests tokens s' es hs in
    elim (event-Counted rt rest requests tokens s e h) [
      | admitted_one one counts room fits ↦
          let later' = rw counts at later in
          let (requests_fit, tokens_fit) = later' (omega arith) (omega arith) in
          rw one (omega arith, omega arith)
      | left_alone refused same ↦ let later' = rw same at later in rw refused (later' few small)
    ]

-- The requests of one organization that a fresh limiter admits in one window, and their token
-- units, stay within the organization's limits, however they interleave with releases and with the
-- requests of others.
pub window_admissions :
    (rt : Runtime) (now : ℕ) (a : Admission) (es : List Event)
    → All (IsLimited rt (org_key rt now a) a.organization_limit a.token_limit) es
    → let total =
        admitted_requests rt (org_key rt now a) (record { windows = []; leases = [] }) es in
      (total.0 ≤ a.organization_limit) × (total.1 ≤ a.token_limit)
unfolding lookup
window_admissions rt now a es h =
    let (few, small) =
      window_total rt (join a.organization_id (join ":" (rt.str (window_of now a))))
        a.organization_limit a.token_limit (record { windows = []; leases = [] }) es h (omega arith)
        (omega arith) in
    (omega (arith, few), omega (arith, small))
