-- ===== src/Providers/Tests.antt =====
-- A router whose first provider is not available.
use enterprise_multi_agent_o.Base.{ℕ, String, ◌≡◌, refl, true, none, some, [], ◌∷◌, string_eq}
use enterprise_multi_agent_o.Base.Lists.{All}
use enterprise_multi_agent_o.Base.Dict.{keys}
use enterprise_multi_agent_o.Core.Types.{nonempty, text_or}
use enterprise_multi_agent_o.Errors.{orchestrator_error, timeout_error, ok, raises}
use enterprise_multi_agent_o.Providers.Router.{
  Router, Provider, LlmResponse, annotate, not_registered, generate,
}
use enterprise_multi_agent_o.Providers.Router.Fallback.{Returned}
use enterprise_multi_agent_o.Providers.Router.Generate.{generate-Outcome}

abbrev answer : LlmResponse
answer = record {
  content = "hello";
  structured_data = none;
  model = "m";
  provider = "groq";
  prompt_tokens = 1;
  completion_tokens = 1;
  total_tokens = 2;
  finish_reason = none;
  latency_ms = 5;
  raw_response = none;
}

abbrev slow : Provider String ℕ
unfolding timeout_error
slow = record {
  generate = λ q. raises (orchestrator_error (timeout_error "late"));
  generate_structured = λ q. raises (orchestrator_error (timeout_error "late"));
}

abbrev quick : Provider String ℕ
quick = record { generate = λ q. ok answer; generate_structured = λ q. ok (7, answer) }

abbrev router : Router String ℕ
router = record {
  providers = ("gemini", slow) ∷ ("groq", quick) ∷ [];
  default_provider = "gemini";
  fallback_provider = "groq";
  enable_fallback = true;
}

primary-nonempty : nonempty (text_or none router.default_provider) ≡ true
unfolding nonempty text_or string_eq
primary-nonempty = refl

names-nonempty : All (λ k. nonempty k ≡ true) (keys router.providers)
unfolding nonempty string_eq
names-nonempty = (refl, (refl, tt))

generate-Outcome_example :
    Returned router.providers
      (λ p. p.generate "hi")
      annotate
      "All available LLM providers failed."
      (text_or none router.default_provider)
      "groq"
      true
      (generate router "hi" none)
generate-Outcome_example = generate-Outcome router "hi" none primary-nonempty names-nonempty

-- A provider that alone is registered, and a fallback that is not.
abbrev lonely : Router String ℕ
lonely = record router { providers = ("gemini", slow) ∷ [] }

lonely-run :
    generate lonely "hi" none ≡ some (raises (not_registered "groq"), "gemini" ∷ "groq" ∷ [])
unfolding generate not_registered text_or nonempty string_eq slow
lonely-run = refl
