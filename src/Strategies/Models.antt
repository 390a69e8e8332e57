-- ===== src/Strategies/Models.antt =====
-- models/registry.py, without the descriptions.
use trading_strands.Prelude.{
  String, Bool, true, false, Option, none, some, List, [], ◌∷◌, ◌==◌, ◌||◌, if◌then◌else◌,
}

pub record ModelChoice : Type 0 where
  pub id : String
  pub label : String
  pub provider : String

abbrev choice : String → String → String → ModelChoice
choice id label provider = record { id = id; label = label; provider = provider }

abbrev pub allowlist : List ModelChoice
allowlist =
    choice "us.anthropic.claude-sonnet-4-6" "Claude Sonnet 4.6 (default)" "bedrock"
    ∷ choice "us.anthropic.claude-opus-4-7" "Claude Opus 4.7" "bedrock"
    ∷ choice "us.anthropic.claude-opus-4-6" "Claude Opus 4.6" "bedrock"
    ∷ choice "us.anthropic.claude-haiku-4-5" "Claude Haiku 4.5" "bedrock"
    ∷ choice "us.amazon.nova-pro-v1:0" "Amazon Nova Pro" "bedrock"
    ∷ choice "openai.gpt-5" "GPT-5 (not wired yet)" "openai"
    ∷ choice "openai.gpt-5-mini" "GPT-5 mini (not wired yet)" "openai"
    ∷ []

abbrev pub default_model_id : String
default_model_id = "us.anthropic.claude-sonnet-4-6"

abbrev pub available_models : List ModelChoice
available_models = allowlist

-- `model_id in _BY_ID`
unfoldable pub is_listed : List ModelChoice → String → Bool
is_listed [] model_id = false
is_listed (m ∷ ms) model_id = m.id == model_id || is_listed ms model_id

-- whether `validate_model_id` returns
unfoldable pub validate_model_id : String → Bool
validate_model_id model_id = if model_id == "" then true else is_listed allowlist model_id

-- `None` stands for `UnknownModelError`
unfoldable pub resolve_model_id : String → Option String
resolve_model_id model_id =
    if model_id == ""
    then some default_model_id
    else if is_listed allowlist model_id
    then some model_id
    else none
