-- ===== src/Jobs/Envelope.antt =====
-- `TaskEnvelope` and `verify_job_envelope` of src/ai_examiner/services/job_control.py, with
-- `trace_id_from_traceparent` of services/observability.py as the test that it passes.
pub mod RoundTrip
use Prim.Native.Char.{code}
use Prim.Native.String.{count}
use mathlib.Core.Option
use ai_examiner.Prelude.{
  leb, ◌==◌, if◌then◌else◌, opt_eq, length, forall, contains, Dict, lookup, Result, ok, ◌>>=◌, ◌>>◌,
  guard, require, ℕ, zero, suc, String, Bool, true, false, ◌&&◌, ◌||◌, Option, none, some, List, [],
  ◌∷◌, ◌++◌, map, str_eq,
}
use ai_examiner.Jobs.Model.{
  Json, null, bool, int, text, arr, obj, item, field, BackgroundJob, JobError, job_envelope_invalid,
}

-- Python's conversions and the digest, which the source calls: `int()` on a text, `str()` on a
-- value that is no text, `\d` and `str.isspace` on a code point, and the SHA-256 of the canonical
-- JSON text of a dictionary.
pub record Runtime : Type 0 where
  pub parse_int : String → Option ℕ
  pub show : Json → String
  pub is_decimal : ℕ → Bool
  pub is_space : ℕ → Bool
  pub digest : Dict Json → String

pub record TaskEnvelope : Type 0 where
  pub job_id : String
  pub organization_id : String
  pub actor_principal_id : Option String
  pub kind : String
  pub required_capability : String
  pub authorization_mode : String
  pub idempotency_key : String
  pub payload_digest : String
  pub request_id : String
  pub traceparent : String
  pub version : ℕ

-- The code points of a text.
abbrev codes : String → List ℕ
codes String.[] = []
codes (String.◌∷◌ c s) = code c ∷ codes s

-- `JOB_CAPABILITIES`
abbrev pub job_capabilities : Dict String
job_capabilities =
    ("blueprint_generation", "blueprint.create")
    ∷ ("golden_dataset", "dataset.manage")
    ∷ ("visual_document", "document.read")
    ∷ ("benchmark", "benchmark.run")
    ∷ ("memory_export", "learner_memory.admin")
    ∷ ("memory_deletion", "learner_memory.admin")
    ∷ ("organization_export", "retention.read")
    ∷ ("data_subject_deletion", "retention.manage")
    ∷ []

abbrev base_keys : List String
base_keys =
    "version" ∷ "job_id" ∷ "organization_id" ∷ "actor_principal_id" ∷ "kind" ∷ "required_capability"
    ∷ "authorization_mode" ∷ "idempotency_key" ∷ "payload_digest" ∷ []

abbrev expected_keys : ℕ → List String
expected_keys version =
    if version == 2 then base_keys ++ ("request_id" ∷ "traceparent" ∷ []) else base_keys

abbrev keys : Dict Json → List String
keys d = map (λ entry. entry.0) d

-- `set(left) == set(right)`
abbrev same_keys : List String → List String → Bool
same_keys xs ys = forall (contains ys) xs && forall (contains xs) ys

abbrev is_hex : Runtime → ℕ → Bool
is_hex rt c = rt.is_decimal c || ((leb b'a' c && leb c b'f') || (leb b'A' c && leb c b'F'))

-- What is left behind `n` hexadecimal digits.
skip_hex : Runtime → ℕ → List ℕ → Option (List ℕ)
skip_hex rt zero cs = some cs
skip_hex rt (suc n) [] = none
skip_hex rt (suc n) (c ∷ cs) = let rest = skip_hex rt n cs in if is_hex rt c then rest else none

skip_dash : List ℕ → Option (List ℕ)
skip_dash [] = none
skip_dash (c ∷ cs) = if c == b'-' then some cs else none

skip_version : List ℕ → Option (List ℕ)
skip_version (a ∷ b ∷ cs) = if a == b'0' && b == b'0' then some cs else none
skip_version _ = none

lstrip : Runtime → List ℕ → List ℕ
lstrip rt [] = []
lstrip rt (c ∷ cs) = if rt.is_space c then lstrip rt cs else c ∷ cs

abbrev strip_end : Bool → ℕ → List ℕ → List ℕ
strip_end space c (d ∷ ds) = c ∷ d ∷ ds
strip_end true c [] = []
strip_end false c [] = c ∷ []

rstrip : Runtime → List ℕ → List ℕ
rstrip rt [] = []
rstrip rt (c ∷ cs) = strip_end (rt.is_space c) c (rstrip rt cs)

abbrev at_end : Option (List ℕ) → Bool
at_end (some []) = true
at_end _ = false

-- Whether `trace_id_from_traceparent` finds a trace identifier, 00-<32 hex>-<16 hex>-<2 hex>.
unfoldable pub has_trace_id : Runtime → String → Bool
unfolding skip_hex skip_dash skip_version lstrip rstrip
has_trace_id rt traceparent = at_end (
    Option.bind (skip_version (rstrip rt (lstrip rt (codes traceparent)))) λ a.
      Option.bind (skip_dash a) λ b. Option.bind (skip_hex rt 32 b) λ c.
        Option.bind (skip_dash c)
          λ d. Option.bind (skip_hex rt 16 d) λ e. Option.bind (skip_dash e) (skip_hex rt 2))

-- `int(value)`
abbrev to_int : Runtime → Json → Option ℕ
to_int rt (bool true) = some 1
to_int rt (bool false) = some 0
to_int rt (int n) = some n
to_int rt (text s) = rt.parse_int s
to_int rt _ = none

-- `str(value)`
abbrev to_str : Runtime → Json → String
to_str rt (text s) = s
to_str rt value = rt.show value

-- `str(value) if value is not None else None`
abbrev to_opt : Runtime → Json → Option String
to_opt rt null = none
to_opt rt (text s) = some s
to_opt rt value = some (rt.show value)

-- `str(value.get(key) or "")`
abbrev or_empty : Runtime → Option Json → String
or_empty rt (some (text s)) = s
or_empty rt (some (bool true)) = rt.show (bool true)
or_empty rt (some (int (suc n))) = rt.show (int (suc n))
or_empty rt (some (arr (item x xs))) = rt.show (arr (item x xs))
or_empty rt (some (obj (field k x fs))) = rt.show (obj (field k x fs))
or_empty rt _ = ""

abbrev is_mode : String → Bool
is_mode mode = str_eq mode "membership" || str_eq mode "legacy_local"

-- The tests that `from_dict` makes on the envelope it has read.
checked : Runtime → TaskEnvelope → Result JobError TaskEnvelope
checked rt e = do
  guard (is_mode e.authorization_mode) job_envelope_invalid
  capability ← require (lookup e.kind job_capabilities) job_envelope_invalid
  guard (str_eq e.required_capability capability) job_envelope_invalid
  guard (leb (count e.request_id) 64) job_envelope_invalid
  guard (str_eq e.traceparent "" || has_trace_id rt e.traceparent) job_envelope_invalid
  ok e

abbrev field_of : Dict Json → String → Result JobError Json
field_of d key = require (lookup key d) job_envelope_invalid

read_fields : Runtime → Dict Json → ℕ → Result JobError TaskEnvelope
read_fields rt value version = do
  job_id ← field_of value "job_id"
  organization_id ← field_of value "organization_id"
  actor_principal_id ← field_of value "actor_principal_id"
  kind ← field_of value "kind"
  required_capability ← field_of value "required_capability"
  authorization_mode ← field_of value "authorization_mode"
  idempotency_key ← field_of value "idempotency_key"
  payload_digest ← field_of value "payload_digest"
  ok (record {
    job_id = to_str rt job_id;
    organization_id = to_str rt organization_id;
    actor_principal_id = to_opt rt actor_principal_id;
    kind = to_str rt kind;
    required_capability = to_str rt required_capability;
    authorization_mode = to_str rt authorization_mode;
    idempotency_key = to_str rt idempotency_key;
    payload_digest = to_str rt payload_digest;
    request_id = or_empty rt (lookup "request_id" value);
    traceparent = or_empty rt (lookup "traceparent" value);
    version = version;
  })

-- `from_dict` from the test on the version and the keys.
read_version : Runtime → Dict Json → ℕ → Result JobError TaskEnvelope
unfolding read_fields checked
read_version rt value version = do
  guard ((version == 1 || version == 2) && same_keys (keys value) (expected_keys version))
      job_envelope_invalid
  envelope ← read_fields rt value version
  checked rt envelope

unfoldable pub from_dict : Runtime → Dict Json → Result JobError TaskEnvelope
unfolding read_version
from_dict rt value = do
  stated ← field_of value "version"
  version ← require (to_int rt stated) job_envelope_invalid
  read_version rt value version

abbrev of_opt : Option String → Json
of_opt none = null
of_opt (some s) = text s

unfoldable pub as_dict : TaskEnvelope → Dict Json
as_dict e =
    ("version", int e.version)
    ∷ ("job_id", text e.job_id)
    ∷ ("organization_id", text e.organization_id)
    ∷ ("actor_principal_id", of_opt e.actor_principal_id)
    ∷ ("kind", text e.kind)
    ∷ ("required_capability", text e.required_capability)
    ∷ ("authorization_mode", text e.authorization_mode)
    ∷ ("idempotency_key", text e.idempotency_key)
    ∷ ("payload_digest", text e.payload_digest)
    ∷ (if leb 2 e.version
        then ("request_id", text e.request_id) ∷ ("traceparent", text e.traceparent) ∷ []
        else [])

unfoldable pub envelope_digest : Runtime → TaskEnvelope → String
envelope_digest rt e = rt.digest (as_dict e)

-- `left == right` where the right side is a text, a number or null, as in an envelope.
abbrev same_value : Json → Json → Bool
same_value null null = true
same_value (int a) (int b) = a == b
same_value (bool true) (int b) = b == 1
same_value (bool false) (int b) = b == 0
same_value (text a) (text b) = str_eq a b
same_value _ _ = false

abbrev has_value : Dict Json → String × Json → Bool
has_value d (key, value) = elim (lookup key d) [
  | none ↦ false
  | some found ↦ same_value found value
]

unfoldable pub same_dict : Dict Json → Dict Json → Bool
same_dict d e = (length d == length e) && forall (has_value d) e

unfoldable pub verify_job_envelope :
    Runtime → BackgroundJob → TaskEnvelope → Result JobError (Unit {0})
unfolding as_dict envelope_digest same_dict
verify_job_envelope rt job e = do
  guard
      (str_eq job.id e.job_id
        && (str_eq job.organization_id e.organization_id
            && (opt_eq job.actor_principal_id e.actor_principal_id
                && (str_eq job.kind e.kind
                    && (str_eq job.required_capability e.required_capability
                        && (str_eq job.authorization_mode e.authorization_mode
                            && (opt_eq job.idempotency_key (some e.idempotency_key)
                                && ((job.envelope_version == e.version)
                                    && (str_eq job.envelope_digest (envelope_digest rt e)
                                        && str_eq (rt.digest job.payload) e.payload_digest)))))))))
      job_envelope_invalid
  guard (same_dict job.envelope_json (as_dict e)) job_envelope_invalid
