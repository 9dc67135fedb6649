-- ===== src/Governance/Catalog.antt =====
-- src/ai_examiner/model_catalog.py and `parse_profile` of providers/factory.py. A price is a number
-- of thousandths of a dollar per million tokens, a cost a number of 10⁻⁸ dollars; the floating
-- point of the source is read as the decimal it prints.
use Prim.Native.Char.{code}
use ai_examiner.Prelude.{
  ltb, ◌==◌, if◌then◌else◌, contains, ℕ, ◌+◌, ◌*◌, ◌/◌, ◌%◌, String, Bool, true, false, not, ◌&&◌,
  Option, none, some, List, [], ◌∷◌, str_eq,
}

pub record ModelCatalogEntry : Type 0 where
  pub provider : String
  pub model : String
  pub input_price : ℕ
  pub output_price : ℕ
  pub supports_vision : Bool

abbrev entry : String → String → ℕ → ℕ → Bool → ModelCatalogEntry
entry provider model input output vision = record {
  provider = provider;
  model = model;
  input_price = input;
  output_price = output;
  supports_vision = vision;
}

-- `CATALOG`
abbrev pub catalog : List ModelCatalogEntry
catalog =
    entry "mock" "heuristic-v2" 0 0 true
    ∷ entry "openai" "gpt-5.4-mini" 750 4500 true
    ∷ entry "anthropic" "claude-sonnet-5" 2000 10000 true
    ∷ entry "gemini" "gemini-3.5-flash" 750 4500 true
    ∷ entry "qwen" "qwen-plus" 111 278 false
    ∷ entry "qwen" "qwen3-vl-plus" 139 1389 true
    ∷ entry "ollama" "qwen2.5:14b" 0 0 false
    ∷ entry "ollama" "qwen2.5:7b" 0 0 false
    ∷ entry "ollama" "llama3.2:3b" 0 0 false
    ∷ []

unfoldable pub find_entry : String → String → List ModelCatalogEntry → Option ModelCatalogEntry
find_entry provider model [] = none
find_entry provider model (x ∷ xs) =
    if str_eq x.provider provider && str_eq x.model model
    then some x
    else find_entry provider model xs

abbrev pub catalog_entry : String → String → Option ModelCatalogEntry
unfolding find_entry
catalog_entry provider model = find_entry provider model catalog

-- Tenths rounded to units, a half to the even one.
abbrev round_tenths : ℕ → ℕ
round_tenths n =
    if ltb (n % 10) 5 then n / 10 else (if n % 10 == 5 then n / 10 + n / 10 % 2 else n / 10 + 1)

abbrev cost_of : Option ModelCatalogEntry → ℕ → ℕ → ℕ
cost_of none input_tokens output_tokens = 0
cost_of (some e) input_tokens output_tokens =
    round_tenths (input_tokens * e.input_price + output_tokens * e.output_price)

unfoldable pub estimate_cost : String → String → ℕ → ℕ → ℕ
estimate_cost provider model input_tokens output_tokens =
    cost_of (catalog_entry provider model) input_tokens output_tokens

-- `SUPPORTED_PROVIDERS`
abbrev supported_providers : List String
supported_providers = "mock" ∷ "openai" ∷ "anthropic" ∷ "gemini" ∷ "ollama" ∷ "qwen" ∷ []

abbrev after_head : Option (String × String) → (String → String) → Option (String × String)
after_head none cons = none
after_head (some (before, after)) cons = some (cons before, after)

-- `profile.split(":", 1)`, where there is a colon.
split_colon : String → Option (String × String)
split_colon String.[] = none
split_colon (String.◌∷◌ c s) =
    let rest = split_colon s in
    if code c == b':' then some ("", s) else after_head rest (String.◌∷◌ c)

abbrev supported : Option (String × String) → Option (String × String)
supported none = none
supported (some (provider, model)) =
    if contains supported_providers provider && not (str_eq model "")
    then some (provider, model)
    else none

-- `none` where the source raises `ValueError`.
unfoldable pub parse_profile : String → Option (String × String)
unfolding split_colon
parse_profile profile = supported (split_colon profile)
