-- ===== src/Providers/Router/Generate.antt =====
-- The two methods of providers/router.py that the agents call, and how often they ask a provider.
use enterprise_multi_agent_o.Base.{
  ℕ, zero, suc, ◌≤◌, ◌<◌, String, ◌≡◌, refl, ap, inl, inr, Bool, true, not, ◌&&◌, ◌||◌, Option,
  some, List, [], ◌∷◌, ◌++◌, ◌==◌, ==-cases, contains, string_eq, or_else, Option-cases, Bool-cases,
  arith,
}
use enterprise_multi_agent_o.Base.Dict.{Dict, keys, lookup}
use enterprise_multi_agent_o.Base.Lists.{length, All, length-select-le}
use enterprise_multi_agent_o.Base.Count.{count, count-append, contains-of_count}
use enterprise_multi_agent_o.Core.Types.{nonempty, text_or}
use enterprise_multi_agent_o.Errors.{Result, text_of, Result-cases}
use enterprise_multi_agent_o.Providers.Router.{
  Router, LlmResponse, annotate, RouterMetadata, is_retryable_failure, candidates, next_target,
  conclude, attempt, generate, generate_structured,
}
use enterprise_multi_agent_o.Providers.Router.Fallback.{Returned, attempt-Returned}

length-keys : {P : Type 0} (d : Dict String P) → length (keys d) ≡ length d
length-keys [] = refl
length-keys (_ ∷ d) = ap suc (length-keys d)

candidates-length :
    {P : Type 0} (d : Dict String P) → length (candidates [] (keys d)) < suc (length d)
unfolding candidates
candidates-length d =
    ground (arith, length-select-le (λ p. not (contains [] p)) (keys d), length-keys d)

module _ {P A : Type 0} (providers : Dict String P) (ask : P → Result A)
    (mark : RouterMetadata → A → A) (failed primary fallback : String)
    (enable_fallback : Bool) where
  attempt-count :
      (fuel : ℕ) (attempted : List String) (history : List (String × String))
      (target : Option String) (r : Result A) (asked : List String) (n : String)
      → count n attempted ≤ 1
      → attempt providers ask mark failed primary fallback enable_fallback fuel attempted history
          target
        ≡ some (r, asked)
      → count n asked ≤ 1
  unfolding attempt conclude
  attempt-count zero attempted history target r asked n le e = absurd (ground (arith, e))
  attempt-count (suc fuel) attempted history target r asked n le e =
      let name = or_else target "" in
      let next = attempted ++ (name ∷ []) in
      elim (Bool-cases (name == "" || contains attempted name)) [
        | inl stop ↦ ground (arith, e, stop, le)
        | inr go ↦
            let once : count n next ≤ 1 = ground (
              arith,
              le,
              go,
              count-append n attempted (name ∷ []),
              ==-cases n name,
              contains-of_count n attempted,
              ap (contains attempted),
            ) in
            elim (Option-cases (lookup name providers)) [
              | inl l ↦ ground (arith, e, go, l, once)
              | inr (p, l) ↦ elim (Result-cases (ask p)) [
                | inl (v, a) ↦ ground (arith, e, go, l, a, once)
                | inr (x, a) ↦ elim (Bool-cases (is_retryable_failure x && enable_fallback)) [
                  | inr stop ↦ ground (arith, e, go, l, a, stop, once)
                  | inl more ↦
                      attempt-count fuel next (history ++ ((name, text_of x) ∷ []))
                        (next_target primary fallback name next (keys providers)) r asked n once
                        (ground (arith, e, go, l, a, more))
                ]
              ]
            ]
      ]

module _ {Q S : Type 0} (r : Router Q S) (q : Q) (provider_name : Option String) where
  -- Where the names of the primary and of the registered providers are not empty, `generate` ends
  -- within its fuel in one of four ways. It returns the answer of the last provider asked,
  -- annotated
  -- if others were asked before. It raises the last one's failure, which does not allow a fallback.
  -- It raises that the primary, or after it alone the fallback provider, is not registered. Or it
  -- raises that all failed, and then every registered provider was asked. All that were asked
  -- before failed in a way that allows a fallback, which is enabled.
  pub generate-Outcome :
      nonempty (text_or provider_name r.default_provider) ≡ true
      → All (λ k. nonempty k ≡ true) (keys r.providers)
      → Returned r.providers
          (λ p. p.generate q)
          annotate
          "All available LLM providers failed."
          (text_or provider_name r.default_provider)
          r.fallback_provider
          r.enable_fallback
          (generate r q provider_name)
  unfolding generate
  generate-Outcome np nk =
      attempt-Returned r.providers (λ p. p.generate q) annotate
        "All available LLM providers failed." (text_or provider_name r.default_provider)
        r.fallback_provider r.enable_fallback (suc (length r.providers)) [] [] _ np nk
        (candidates-length r.providers) refl tt (inl (refl, refl))

  -- Where the names of the primary and of the registered providers are not empty,
  -- `generate_structured` ends in the same four ways, with a parsed model beside the answer.
  pub generate_structured-Outcome :
      nonempty (text_or provider_name r.default_provider) ≡ true
      → All (λ k. nonempty k ≡ true) (keys r.providers)
      → Returned r.providers
          (λ p. p.generate_structured q)
          (λ m a. (a.0, annotate m a.1))
          "All available LLM providers failed for structured output."
          (text_or provider_name r.default_provider)
          r.fallback_provider
          r.enable_fallback
          (generate_structured r q provider_name)
  unfolding generate_structured
  generate_structured-Outcome np nk =
      attempt-Returned r.providers (λ p. p.generate_structured q) (λ m a. (a.0, annotate m a.1))
        "All available LLM providers failed for structured output."
        (text_or provider_name r.default_provider) r.fallback_provider r.enable_fallback
        (suc (length r.providers)) [] [] _ np nk (candidates-length r.providers) refl tt
        (inl (refl, refl))

  -- In a run of `generate` that ends, no provider is asked twice.
  pub generate-once :
      (answer : Result LlmResponse) (asked : List String) (n : String)
      → generate r q provider_name ≡ some (answer, asked)
      → count n asked ≤ 1
  unfolding generate
  generate-once answer asked n e =
      attempt-count r.providers (λ p. p.generate q) annotate "All available LLM providers failed."
        (text_or provider_name r.default_provider) r.fallback_provider r.enable_fallback
        (suc (length r.providers)) [] [] (some (text_or provider_name r.default_provider)) answer
        asked n (omega arith) e
