-- ===== src/Providers/Router.antt =====
-- providers/router.py: the router that asks one provider after another while they fail in ways that
-- another one may not. Providers and requests are parameters. The loops of `generate` and
-- `generate_structured` are the same but for what a provider is asked and the last message.
pub mod Candidates
pub mod Fallback
pub mod Generate
use enterprise_multi_agent_o.Base.{
  ℕ, zero, suc, ◌+◌, String, ◌<>◌, ◌≡◌, refl, Bool, true, false, not, ◌&&◌, ◌||◌, Option, none,
  some, List, [], ◌∷◌, ◌++◌, ltb, ◌==◌, contains, if◌then◌else◌, string_eq, or_else, arith,
}
use enterprise_multi_agent_o.Base.Dict.{Dict, keys, lookup, insert}
use enterprise_multi_agent_o.Base.Lists.{length, select, head?}
use enterprise_multi_agent_o.Core.Types.{nonempty, show_list, text_or}
use enterprise_multi_agent_o.Errors.{
  ErrorClass, OrchestratorError, Exception, orchestrator_error, other, cancelled, Result, ok,
  raises, text_of, provider_error, configuration_error, is_provider_error,
}

-- What `raw_response["router_metadata"]` is set to, which is always of a fallback.
pub record RouterMetadata : Type 0 where
  pub primary_provider : String
  pub active_provider : String
  pub fallback_history : List (String × String)

-- An entry of a raw response: a provider's own, by its text, or the router's.
pub data RawEntry : Type 0 where
  provider_entry : String → RawEntry
  router_entry : RouterMetadata → RawEntry

-- LLMResponse, with times and token counts as whole numbers.
pub record LlmResponse : Type 0 where
  pub content : String
  pub structured_data : Option String
  pub model : String
  pub provider : String
  pub prompt_tokens : ℕ
  pub completion_tokens : ℕ
  pub total_tokens : ℕ
  pub finish_reason : Option String
  pub latency_ms : ℕ
  pub raw_response : Option (Dict String RawEntry)

-- A provider: what its two methods answer to a request, the second with a parsed model.
pub record Provider (Q S : Type 0) : Type 0 where
  pub generate : Q → Result LlmResponse
  pub generate_structured : Q → Result (S × LlmResponse)

pub record Router (Q S : Type 0) : Type 0 where
  pub providers : Dict String (Provider Q S)
  pub default_provider : String
  pub fallback_provider : String
  pub enable_fallback : Bool

module _ {Q S : Type 0} where
  -- `register_provider`, with the provider's name.
  unfoldable pub register_provider :
      (provider_name : String) → Provider Q S → Router Q S → Router Q S
  unfolding insert
  register_provider provider_name p r = record r { providers = insert provider_name p r.providers }

  unfoldable pub get_provider : String → Router Q S → Option (Provider Q S)
  unfolding lookup
  get_provider name r = lookup name r.providers

  unfoldable pub list_providers : Router Q S → List String
  list_providers r = keys r.providers

-- `_is_retryable_failure`
unfoldable pub is_retryable_failure : Exception → Bool
is_retryable_failure (orchestrator_error e) = elim e.kind [
  | ErrorClass.provider_unavailable ↦ true
  | ErrorClass.timeout ↦ true
  | ErrorClass.provider ↦ e.retryable
  | _ ↦ false
]
is_retryable_failure (other _) = false
is_retryable_failure cancelled = false

-- `response.raw_response["router_metadata"] = ...`
unfoldable pub annotate : RouterMetadata → LlmResponse → LlmResponse
unfolding insert
annotate m r = record r {
  raw_response = some (insert "router_metadata" (router_entry m) (or_else r.raw_response []));
}

-- The registered providers that were not attempted yet.
unfoldable pub candidates : (attempted : List String) → (registered : List String) → List String
candidates attempted registered = select (λ p. not (contains attempted p)) registered

-- The next `current_target` after a failure that allows one.
unfoldable pub next_target :
    (primary fallback current : String) (attempted registered : List String) → Option String
unfolding nonempty candidates
next_target primary fallback current attempted registered =
    if current == primary && nonempty fallback && not (fallback == primary)
    then some fallback
    else head? (candidates attempted registered)

-- `"; ".join(...)` of the failures.
abbrev pub failed_summary : List (String × String) → String
failed_summary [] = ""
failed_summary ((p, e) ∷ []) = "[" <> p <> ": " <> e <> "]"
failed_summary ((p, e) ∷ (f ∷ fs)) = "[" <> p <> ": " <> e <> "]; " <> failed_summary (f ∷ fs)

unfoldable pub not_registered : String → Exception
unfolding configuration_error
not_registered name = orchestrator_error (
    configuration_error ("Requested LLM provider '" <> name <> "' is not registered in LLMRouter.")
      "PROVIDER_NOT_FOUND")

unfoldable pub all_failed :
    (failed : String) (attempted : List String) (history : List (String × String)) → Exception
unfolding provider_error
all_failed failed attempted history = orchestrator_error (
    provider_error
      (failed <> " Attempted: " <> show_list attempted <> ". Errors: " <> failed_summary history)
      "ALL_PROVIDERS_FAILED" true)

-- The loop: `ask` is the call of a provider, `mark` the annotation of an answer, `failed` the
-- opening of the last message. It returns what is raised or returned, with the providers attempted
-- in their order, and `none` if the fuel runs out.
module _ {P A : Type 0} (providers : Dict String P) (ask : P → Result A)
    (mark : RouterMetadata → A → A) (failed primary fallback : String)
    (enable_fallback : Bool) where
  -- What follows the call of a provider, with the rest of the loop after a retryable failure.
  unfoldable pub conclude :
      (attempted : List String) (history : List (String × String)) (name : String)
      → (rest : Exception → Option (Result A × List String)) → Result A
      → Option (Result A × List String)
  unfolding is_retryable_failure
  conclude attempted history name rest (ok r) = some (
    ok (
        if ltb 1 (length attempted)
        then mark
            (record {
              primary_provider = primary;
              active_provider = name;
              fallback_history = history;
            })
            r
        else r),
    attempted,
  )
  conclude attempted history name rest (raises e) =
      elim (not (is_retryable_failure e) || not enable_fallback) [
        | true ↦ some (raises e, attempted)
        | false ↦ rest e
      ]

  unfoldable pub attempt :
      ℕ
      → (attempted : List String) (history : List (String × String)) (target : Option String)
      → Option (Result A × List String)
  unfolding conclude next_target lookup not_registered all_failed
  attempt zero attempted history target = none
  attempt (suc fuel) attempted history target =
      let name = or_else target "" in
      let attempted' = attempted ++ (name ∷ []) in
      elim (name == "" || contains attempted name) [
        | true ↦ some (raises (all_failed failed attempted history), attempted)
        | false ↦ elim (lookup name providers) [
          | none ↦ some (raises (not_registered name), attempted')
          | some p ↦
              conclude attempted' history name
                (λ e.
                  attempt fuel attempted' (history ++ ((name, text_of e) ∷ []))
                    (next_target primary fallback name attempted' (keys providers)))
                (ask p)
        ]
      ]

module _ {Q S : Type 0} where
  -- `LLMRouter.generate`, on fuel for every registered provider and one more pass.
  unfoldable pub generate :
      Router Q S → Q → (provider_name : Option String) → Option (Result LlmResponse × List String)
  unfolding attempt annotate
  generate r q provider_name =
      let primary = text_or provider_name r.default_provider in
      attempt r.providers (λ p. p.generate q) annotate "All available LLM providers failed." primary
        r.fallback_provider r.enable_fallback (suc (length r.providers)) [] [] (some primary)

  -- `LLMRouter.generate_structured`
  unfoldable pub generate_structured :
      Router Q S
      → Q
      → (provider_name : Option String) → Option (Result (S × LlmResponse) × List String)
  unfolding attempt annotate
  generate_structured r q provider_name =
      let primary = text_or provider_name r.default_provider in
      attempt r.providers (λ p. p.generate_structured q) (λ m (s, a). (s, annotate m a))
        "All available LLM providers failed for structured output." primary r.fallback_provider
        r.enable_fallback (suc (length r.providers)) [] [] (some primary)
