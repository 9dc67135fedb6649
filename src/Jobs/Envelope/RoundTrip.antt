-- ===== src/Jobs/Envelope/RoundTrip.antt =====
-- Reading an envelope back from the dictionary that it is sent as, and what reading accepts.
use Prim.Native.String.{count}
use mathlib.Core.Path.{subst}
use ai_examiner.Prelude.{
  leb, ◌==◌, Bool-cases, leb→le, le→leb, str_eq_refl, Dict, lookup, Result, ok, ◌>>=◌, ◌>>◌, guard,
  require, >>=-eq-ok, ℕ, ◌≤◌, String, ◌≡◌, refl, sym, ap, ◌∙◌, ◌⊎◌, inl, inr, Bool, true, false,
  ◌&&◌, ◌||◌, Option, none, some, arith, str_eq, eq_iff,
}
use ai_examiner.Jobs.Envelope.{
  Runtime, TaskEnvelope, job_capabilities, has_trace_id, from_dict, as_dict, expected_keys, keys,
  same_keys, to_int, to_opt, is_mode, checked, field_of, read_fields, read_version, of_opt,
}
use ai_examiner.Jobs.Model.{Json, JobError, job_envelope_invalid}

-- What `from_dict` tests: a supported version, a known mode and kind, the capability of the kind,
-- bounded and well-formed correlation.
pub record IsAccepted (rt : Runtime) (e : TaskEnvelope) : Type 0 where
  pub known_version : (e.version ≡ 1) ⊎ (e.version ≡ 2)
  pub known_mode : is_mode e.authorization_mode ≡ true
  pub known_kind : lookup e.kind job_capabilities ≡ some e.required_capability
  pub short_request : count e.request_id ≤ 64
  pub traced : (str_eq e.traceparent "" || has_trace_id rt e.traceparent) ≡ true

-- The envelopes that can be sent: version 1 carries no correlation.
pub record IsValid (rt : Runtime) (e : TaskEnvelope) : Type 0 where
  pub accepted : IsAccepted rt e
  pub open accepted use *
  pub bare : e.version ≡ 1 → (e.request_id ≡ "") × (e.traceparent ≡ "")

checked-IsValid : (rt : Runtime) (e : TaskEnvelope) → IsValid rt e → checked rt e ≡ ok e
unfolding checked
checked-IsValid rt e v = rw (
  v.known_mode,
  v.known_kind,
  str_eq_refl e.required_capability,
  le→leb (count e.request_id) 64 v.short_request,
  v.traced,
)

to_opt-of_opt : (rt : Runtime) (o : Option String) → to_opt rt (of_opt o) ≡ o
to_opt-of_opt rt none = refl
to_opt-of_opt rt (some s) = refl

-- What `from_dict` reads from an envelope's dictionary before its tests.
from_dict_reads :
    (rt : Runtime) (e : TaskEnvelope) → IsValid rt e → from_dict rt (as_dict e) ≡ checked rt e
unfolding from_dict as_dict lookup
from_dict_reads rt e v = elim (v.known_version) [
  | inl one ↦
      let (no_request, no_trace) = v.bare one in
      rw (one, to_opt-of_opt rt e.actor_principal_id, no_request, no_trace)
  | inr two ↦ rw (two, to_opt-of_opt rt e.actor_principal_id) (rw two)
]

-- A valid envelope is read back, unchanged, from the dictionary that it is sent as.
pub from_dict-as_dict :
    (rt : Runtime) (e : TaskEnvelope) → IsValid rt e → from_dict rt (as_dict e) ≡ ok e
from_dict-as_dict rt e v = from_dict_reads rt e v ∙ checked-IsValid rt e v

matching_capability :
    (o : Option String) (stated : String) (k : Result JobError TaskEnvelope) (e : TaskEnvelope)
    → (require o job_envelope_invalid >>= λ capability.
        guard (str_eq stated capability) job_envelope_invalid >> k)
      ≡ ok e
    → (o ≡ some stated) × (k ≡ ok e)
matching_capability none stated k e h = cc
matching_capability (some c) stated k e h = elim (Bool-cases (str_eq stated c)) [
  | inl same ↦ (ap some (sym ((eq_iff stated c).0 same)), rw same at h)
  | inr other ↦ absurd (cc (rw other at h))
]

guarded :
    (b : Bool) (k : Result JobError TaskEnvelope) (e : TaskEnvelope)
    → (guard b job_envelope_invalid >> k) ≡ ok e
    → (b ≡ true) × (k ≡ ok e)
guarded true k e h = (refl, h)
guarded false k e h = cc

checked_inversion :
    (rt : Runtime) (e e' : TaskEnvelope)
    → checked rt e ≡ ok e'
    → (e ≡ e')
      × (is_mode e.authorization_mode ≡ true)
      × (lookup e.kind job_capabilities ≡ some e.required_capability)
      × (count e.request_id ≤ 64)
      × ((str_eq e.traceparent "" || has_trace_id rt e.traceparent) ≡ true)
unfolding checked
checked_inversion rt e e' h =
    let (mode, h₁) = guarded (is_mode e.authorization_mode) _ e' h in
    let (kind, h₂) =
      matching_capability (lookup e.kind job_capabilities) e.required_capability _ e' h₁ in
    let (short, h₃) = guarded (leb (count e.request_id) 64) _ e' h₂ in
    let (traced, h₄) = guarded (str_eq e.traceparent "" || has_trace_id rt e.traceparent) _ e' h₃ in
    (cc h₄, mode, kind, leb→le _ _ short, traced)

version-read_fields :
    (rt : Runtime) (d : Dict Json) (version : ℕ) (e : TaskEnvelope)
    → read_fields rt d version ≡ ok e
    → e.version ≡ version
unfolding read_fields
version-read_fields rt d version e h = ground arith

supported_version : (v : ℕ) (b : Bool) → ((v == 1 || v == 2) && b) ≡ true → (v ≡ 1) ⊎ (v ≡ 2)
supported_version v b h = ground arith

-- Whatever dictionary a worker is handed, an accepted envelope has a supported version, a known
-- mode and the capability of its kind, and bounded, well-formed correlation.
pub from_dict_accepts :
    (rt : Runtime) (d : Dict Json) (e : TaskEnvelope) → from_dict rt d ≡ ok e → IsAccepted rt e
unfolding from_dict
from_dict_accepts rt d e h =
    let (stated, _, h₁) =
      >>=-eq-ok (field_of d "version")
        (λ stated. require (to_int rt stated) job_envelope_invalid >>= read_version rt d) h in
    let (version, _, h₂) =
      >>=-eq-ok (require (to_int rt stated) job_envelope_invalid) (read_version rt d) h₁ in
    let (supported, h₃) =
      guarded ((version == 1 || version == 2) && same_keys (keys d) (expected_keys version)) _ e
        h₂ in
    let (e', read, h₄) = >>=-eq-ok (read_fields rt d version) (checked rt) h₃ in
    let (same, mode, kind, short, traced) = checked_inversion rt e' e h₄ in
    let stated = version-read_fields rt d version e' read in
    subst (IsAccepted rt) same (record {
      known_version = rw stated (supported_version version _ supported);
      known_mode = mode;
      known_kind = kind;
      short_request = short;
      traced = traced;
    })
