-- ===== src/Config/Providers.antt =====
-- The definitions of language-model providers: the schemas of src/ai/providers/registry.ts, and what
-- `loadConfig` of src/config/config.ts makes of LLM_PROVIDERS. `JSON.parse` is JavaScript's: it yields no
-- value, a value that is no list of objects, or a list of objects, of which the fields are read.
use capybara_ai.Prelude.{
  String, Bool, Option, none, some, List, [], ◌∷◌, not, ◌==◌, string_eq, if◌then◌else◌, any,
}

-- A field is none where it is absent or no text; the key also says which of the two.
pub record RawProvider : Type 0 where
  pub id : Option String
  pub kind : Option String
  pub base_url : Option String
  pub model : Option String
  pub api_key : Option (Option String)

pub data ParsedJson : Type 0 where
  not_json other_value : ParsedJson
  objects : List RawProvider → ParsedJson

pub data ProviderKind : Type 0 where
  openai_compatible anthropic : ProviderKind

pub record LlmProviderConfig : Type 0 where
  pub id : String
  pub kind : ProviderKind
  pub base_url : String
  pub model : String
  pub api_key : Option String

abbrev pub kind_of : String → Option ProviderKind
kind_of text =
    if text == "openai-compatible"
    then some openai_compatible
    else if text == "anthropic"
    then some anthropic
    else none

abbrev pub fields_of :
    Option String
    → Option ProviderKind
    → Option String
    → Option String
    → Option (Option String)
    → Option LlmProviderConfig
fields_of (some id) (some kind) (some base_url) (some model) (some api_key) =
    some (record { id = id; kind = kind; base_url = base_url; model = model; api_key = api_key })
fields_of _ _ _ _ _ = none

-- A text that a test accepts.
abbrev pub accepted : (String → Bool) → Option String → Option String
accepted test none = none
accepted test (some text) = if test text then some text else none

abbrev pub kind_text : Option String → Option ProviderKind
kind_text none = none
kind_text (some text) = kind_of text

-- `llmProviderConfigSchema`
abbrev pub provider_of : (String → Bool) → RawProvider → Option LlmProviderConfig
provider_of is_url raw =
    fields_of (accepted (λ s. not (s == "")) raw.id) (kind_text raw.kind)
      (accepted is_url raw.base_url) (accepted (λ s. not (s == "")) raw.model) raw.api_key

abbrev pub both : {A : Type 0} → Option A → Option (List A) → Option (List A)
both (some a) (some as') = some (a ∷ as')
both _ _ = none

-- `llmProvidersSchema`
abbrev pub providers_of : (String → Bool) → List RawProvider → Option (List LlmProviderConfig)
providers_of is_url [] = some []
providers_of is_url (raw ∷ raws) = both (provider_of is_url raw) (providers_of is_url raws)

-- What LLM_PROVIDERS comes to: the providers, or the reason of the issue.
pub data ProviderReading : Type 0 where
  configured : List LlmProviderConfig → ProviderReading
  refused : String → ProviderReading

abbrev pub reading_of : Option (List LlmProviderConfig) → ProviderReading
reading_of none = refused "invalid provider definition(s)"
reading_of (some providers) = configured providers

abbrev pub read_json : (String → Bool) → ParsedJson → ProviderReading
read_json is_url not_json = refused "must be valid JSON"
read_json is_url other_value = refused "invalid provider definition(s)"
read_json is_url (objects raws) = reading_of (providers_of is_url raws)

abbrev pub read_providers :
    (String → Bool) → (String → ParsedJson) → Option String → ProviderReading
read_providers is_url parse none = configured []
read_providers is_url parse (some text) =
    if text == "" then configured [] else read_json is_url (parse text)

abbrev pub providers_read : ProviderReading → List LlmProviderConfig
providers_read (configured providers) = providers
providers_read (refused _) = []

-- `llmProviders.some((p) => p.id === id)`
abbrev pub has_provider : List LlmProviderConfig → String → Bool
has_provider providers id = any (λ (p : LlmProviderConfig). p.id == id) providers
