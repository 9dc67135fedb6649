-- ===== src/Audit/Redaction.antt =====
-- What src/ai_examiner/services/audit.py lets into an audit event: `_safe_code`, `_safe_identifier`,
-- `_redact_scalar` and `redact_audit_metadata`. `str`, `strip`, `lower` and the regular expressions of
-- SECRET_PATTERNS are arguments.
use Prim.Native.Char.{code}
use Prim.Native.String.{count}
use ai_examiner.Prelude.{
  ltb, leb, ◌==◌, if◌then◌else◌, or_default, take, exists, contains, Dict, insert, begins, has_text,
  ℕ, String, Bool, true, not, ◌&&◌, ◌||◌, Option, none, some, List, [], ◌∷◌, str_eq,
}
use ai_examiner.Jobs.Model.{Json, null, bool, int, text, arr, obj, Items, nil, item}
use ai_examiner.Audit.Listing.{less}

pub record TextOps : Type 0 where
  pub show : Json → String
  pub strip : String → String
  pub lower : String → String
  pub is_secret : String → Bool

-- `[A-Za-z0-9_.:@-]`
abbrev pub in_range : ℕ → ℕ → ℕ → Bool
in_range low high c = leb low c && leb c high

abbrev pub is_alphanumeric : ℕ → Bool
is_alphanumeric c = in_range 65 90 c || (in_range 97 122 c || in_range 48 57 c)

abbrev pub is_identifier_char : ℕ → Bool
is_identifier_char c =
    is_alphanumeric c || ((c == 95) || ((c == 46) || ((c == 58) || ((c == 64) || (c == 45)))))

unfoldable pub all_chars : (ℕ → Bool) → String → Bool
all_chars test String.[] = true
all_chars test (String.◌∷◌ c s) = test (code c) && all_chars test s

-- `SAFE_IDENTIFIER_PATTERN.fullmatch`
unfoldable pub is_identifier : String → Bool
is_identifier s = (leb 1 (count s) && leb (count s) 160) && all_chars is_identifier_char s

-- A text of at most 160 characters is its own prefix of that length.
unfoldable pub safe_code : TextOps → Option String → String → String
safe_code ops value fallback =
    let candidate = ops.strip (or_default value "") in
    if is_identifier candidate then candidate else fallback

unfoldable pub safe_identifier : TextOps → Option String → Option String
safe_identifier ops value =
    let candidate = ops.strip (or_default value "") in
    if is_identifier candidate && not (ops.is_secret candidate) then some candidate else none

abbrev pub redacted : Json
redacted = text "[REDACTED]"

abbrev pub redact_text : TextOps → String → Json
redact_text ops candidate =
    if str_eq candidate "" || (ltb 160 (count candidate) || ops.is_secret candidate)
    then redacted
    else if is_identifier candidate
    then text candidate
    else redacted

unfoldable pub redact_scalar : TextOps → Json → Json
redact_scalar ops null = null
redact_scalar ops (bool b) = bool b
redact_scalar ops (int n) = int n
redact_scalar ops (text s) = redact_text ops (ops.strip s)
redact_scalar ops (arr items) = redact_text ops (ops.strip (ops.show (arr items)))
redact_scalar ops (obj fields) = redact_text ops (ops.strip (ops.show (obj fields)))

abbrev pub safe_metadata_keys : List String
safe_metadata_keys =
    "audit_class" ∷ "capability" ∷ "changed_fields" ∷ "data_classification" ∷ "http_method"
    ∷ "job_kind" ∷ "membership_role" ∷ "membership_status" ∷ "policy_version" ∷ "quota_mode"
    ∷ "recovered_count" ∷ "requested_profile" ∷ "route_template" ∷ "status_code" ∷ "task_type"
    ∷ "terminal_status" ∷ []

abbrev pub forbidden_key_fragments : List String
forbidden_key_fragments =
    "answer" ∷ "authorization" ∷ "body" ∷ "content" ∷ "cookie" ∷ "document" ∷ "header" ∷ "key"
    ∷ "password" ∷ "prompt" ∷ "secret" ∷ "text" ∷ "token" ∷ "transcript" ∷ "url" ∷ []

unfoldable pub is_safe_key : String → Bool
is_safe_key key =
    contains safe_metadata_keys key
    && not (exists (λ fragment. has_text fragment key) forbidden_key_fragments)

-- `str(item)`
abbrev pub shown : TextOps → Json → String
shown ops (text s) = s
shown ops value = ops.show value

abbrev pub add_field : Option String → List String → List String
add_field none fields = fields
add_field (some name) fields = name ∷ fields

unfoldable pub changed_values : TextOps → Items → List String
changed_values ops nil = []
changed_values ops (item value rest) =
    add_field (safe_identifier ops (some (shown ops value))) (changed_values ops rest)

-- `sorted(set(values))`
unfoldable pub insert_unique : String → List String → List String
insert_unique s [] = s ∷ []
insert_unique s (t ∷ ts) =
    if str_eq s t then t ∷ ts else if less s t then s ∷ t ∷ ts else t ∷ insert_unique s ts

unfoldable pub sorted_set : List String → List String
sorted_set [] = []
sorted_set (s ∷ ss) = insert_unique s (sorted_set ss)

abbrev pub as_items : List String → Items
as_items [] = nil
as_items (s ∷ ss) = item (text s) (as_items ss)

-- `re.fullmatch(r"/[A-Za-z0-9_/{}/.-]+", candidate)`
abbrev pub is_route_char : ℕ → Bool
is_route_char c =
    is_alphanumeric c
    || ((c == 95) || ((c == 47) || ((c == 123) || ((c == 125) || ((c == 46) || (c == 45))))))

unfoldable pub is_route : String → Bool
is_route s =
    leb (count s) 240 && (begins "/api/v1/" s && (leb 2 (count s) && all_chars is_route_char s))

-- The value that a safe key gets, if any.
abbrev pub changed_of : TextOps → Json → Option Json
changed_of ops (arr items) = some (arr (as_items (take 32 (sorted_set (changed_values ops items)))))
changed_of ops value = none

unfoldable pub redact_value : TextOps → String → Json → Option Json
redact_value ops key value =
    let route = ops.strip (shown ops value) in
    if str_eq key "changed_fields"
    then changed_of ops value
    else if str_eq key "route_template"
    then (if is_route route then some (text route) else none)
    else some (redact_scalar ops value)

abbrev pub put_value : String → Option Json → Dict Json → Dict Json
put_value key none sanitized = sanitized
put_value key (some value) sanitized = insert key value sanitized

-- The loop of `redact_audit_metadata`, from the entries on and with what is sanitized already.
unfoldable pub redact_from : TextOps → Dict Json → Dict Json → Dict Json
redact_from ops [] sanitized = sanitized
redact_from ops ((raw_key, value) ∷ rest) sanitized =
    let key = ops.lower (ops.strip raw_key) in
    if is_safe_key key
    then redact_from ops rest (put_value key (redact_value ops key value) sanitized)
    else redact_from ops rest sanitized

unfoldable pub redact_audit_metadata : TextOps → Dict Json → Dict Json
redact_audit_metadata ops metadata = redact_from ops metadata []
