-- ===== src/Providers/Router/Fallback.antt =====
-- The fallback loop of providers/router.py and the ways in which it ends.
use enterprise_multi_agent_o.Base.{
  ℕ, zero, suc, ◌<◌, String, ◌≡◌, refl, sym, ◌∙◌, ap, subst, ◌≢◌, ◌⊎◌, inl, inr, Bool, true, false,
  ◌&&◌, ◌||◌, Option, none, some, List, [], ◌∷◌, ◌++◌, map, ltb, ◌==◌, contains, if◌then◌else◌,
  string_eq, Option-cases, Bool-cases, arith,
}
use enterprise_multi_agent_o.Base.Dict.{Dict, keys, lookup}
use enterprise_multi_agent_o.Base.Lists.{length, head?, All, All-snoc}
use enterprise_multi_agent_o.Core.Types.{nonempty}
use enterprise_multi_agent_o.Errors.{Exception, Result, ok, raises, text_of, Result-cases}
use enterprise_multi_agent_o.Providers.Router.{
  RouterMetadata, is_retryable_failure, candidates, next_target, not_registered, all_failed,
  conclude, attempt,
}
use enterprise_multi_agent_o.Providers.Router.Candidates.{
  contains-snoc, candidates-lt, names-snoc, no_candidates, candidate-fresh, candidate-In,
  candidate-registered, some-inj,
}

module _ {P A : Type 0} (providers : Dict String P) (ask : P → Result A)
    (enable_fallback : Bool) where
  -- A provider that was asked and failed in a way that another one may not, with fallback enabled.
  abbrev pub IsPassedOver : String → Type 0
  IsPassedOver name =
      (p : P) × (e : Exception) × (lookup name providers ≡ some p)
      × (ask p ≡ raises e)
      × (is_retryable_failure e ≡ true)
      × (enable_fallback ≡ true)

module _ {P A : Type 0} (providers : Dict String P) (ask : P → Result A)
    (mark : RouterMetadata → A → A) (failed primary fallback : String)
    (enable_fallback : Bool) where
  -- The ways in which the loop ends: what it returns or raises and the providers attempted.
  pub data Outcome : Result A → List String → Type 0 where
    answered :
        (history : List (String × String)) (name : String) (p : P) (r : A)
        → All (IsPassedOver providers ask enable_fallback) (map (λ h. h.0) history)
        → lookup name providers ≡ some p
        → ask p ≡ ok r
        → Outcome
            (ok (
              if ltb 0 (length history)
              then mark
                  (record {
                    primary_provider = primary;
                    active_provider = name;
                    fallback_history = history;
                  })
                  r
              else r))
            (map (λ h. h.0) history ++ (name ∷ []))
    refused :
        (before : List String) (name : String) (p : P) (e : Exception)
        → All (IsPassedOver providers ask enable_fallback) before
        → lookup name providers ≡ some p
        → ask p ≡ raises e
        → is_retryable_failure e && enable_fallback ≡ false
        → Outcome (raises e) (before ++ (name ∷ []))
    unregistered :
        (before : List String) (name : String)
        → All (IsPassedOver providers ask enable_fallback) before
        → lookup name providers ≡ none
        → ((name ≡ primary) × (before ≡ [])) ⊎ ((name ≡ fallback) × (before ≡ primary ∷ []))
        → Outcome (raises (not_registered name)) (before ++ (name ∷ []))
    exhausted :
        (history : List (String × String)) (attempted : List String)
        → All (IsPassedOver providers ask enable_fallback) attempted
        → All (λ k. contains attempted k ≡ true) (keys providers)
        → Outcome (raises (all_failed failed attempted history)) attempted

  -- Where a target comes from.
  abbrev pub IsTarget : (attempted : List String) → Option String → Type 0
  IsTarget attempted target =
      ((target ≡ some primary) × (attempted ≡ []))
      ⊎ ((target ≡ some fallback)
          × (attempted ≡ primary ∷ [])
          × (fallback ≢ primary)
          × (nonempty fallback ≡ true))
      ⊎ ((target ≡ head? (candidates attempted (keys providers)))
          × (contains attempted primary ≡ true))

  target-or_primary :
      (n : String) (attempted : List String)
      → IsTarget attempted (some n)
      → ((n ≡ primary) × (attempted ≡ [])) ⊎ ((n ≢ primary) × (contains attempted primary ≡ true))
  target-or_primary n attempted (inl (e, h)) = inl (some-inj e, h)
  target-or_primary n attempted (inr (inl (e, h, differ, _))) =
      inr (λ s. differ (sym (some-inj e) ∙ s), ground (arith, h))
  target-or_primary n attempted (inr (inr (e, h))) =
      inr (ground (arith, h, candidate-fresh attempted (keys providers) n (sym e)), h)

  next_target-IsTarget :
      (n : String) (attempted : List String)
      → IsTarget attempted (some n)
      → IsTarget
          (attempted ++ (n ∷ []))
          (next_target primary fallback n (attempted ++ (n ∷ [])) (keys providers))
  unfolding next_target
  next_target-IsTarget n attempted t =
      ground (arith, target-or_primary n attempted t, contains-snoc primary n attempted)

  target-open :
      (n : String) (attempted : List String)
      → nonempty primary ≡ true
      → All (λ k. nonempty k ≡ true) (keys providers)
      → IsTarget attempted (some n)
      → (n == "" || contains attempted n) ≡ false
  unfolding nonempty
  target-open n attempted np nk (inl (e, h)) = ground (arith, e, h, np)
  target-open n attempted np nk (inr (inl (e, h, differ, nf))) = ground (arith, e, h, differ, nf)
  target-open n attempted np nk (inr (inr (e, h))) = ground (
    arith,
    candidate-fresh attempted (keys providers) n (sym e),
    candidate-In (λ k. nonempty k ≡ true) attempted (keys providers) n nk (sym e),
  )

  target-registered :
      (n : String) (attempted : List String)
      → IsTarget attempted (some n)
      → lookup n providers ≡ none
      → ((n ≡ primary) × (attempted ≡ [])) ⊎ ((n ≡ fallback) × (attempted ≡ primary ∷ []))
  target-registered n attempted (inl (e, h)) l = inl (some-inj e, h)
  target-registered n attempted (inr (inl (e, h, _, _))) l = inr (some-inj e, h)
  target-registered n attempted (inr (inr (e, h))) l =
      absurd (candidate-registered n attempted providers (sym e) l)

  abbrev pub Returned : Option (Result A × List String) → Type 0
  Returned found =
      (r : Result A) × (asked : List String) × (found ≡ some (r, asked)) × Outcome r asked

  length-names :
      (history : List (String × String)) (n : String)
      → length (map (λ h. h.0) history ++ (n ∷ [])) ≡ suc (length history)
  length-names [] n = refl
  length-names (h ∷ history) n = ap suc (length-names history n)

  pub attempt-Returned :
      (fuel : ℕ) (attempted : List String) (history : List (String × String))
      (target : Option String)
      → nonempty primary ≡ true
      → All (λ k. nonempty k ≡ true) (keys providers)
      → length (candidates attempted (keys providers)) < fuel
      → map (λ h. h.0) history ≡ attempted
      → All (IsPassedOver providers ask enable_fallback) attempted
      → IsTarget attempted target
      → Returned (
          attempt providers ask mark failed primary fallback enable_fallback fuel attempted history
            target)
  unfolding attempt conclude string_eq
  attempt-Returned zero attempted history target np nk lt names over t = absurd (omega (arith, lt))
  attempt-Returned (suc fuel) attempted history none np nk lt names over t = (
    _,
    _,
    refl,
    exhausted history attempted over (no_candidates attempted (keys providers) (ground (arith, t))),
  )
  attempt-Returned (suc fuel) attempted history (some n) np nk lt names over t =
      let fresh = target-open n attempted np nk t in
      let asked = attempted ++ (n ∷ []) in
      elim (Option-cases (lookup n providers)) [
        | inl l ↦ (
          _,
          _,
          ground (arith, fresh, l),
          unregistered attempted n over l (target-registered n attempted t l),
        )
        | inr (p, l) ↦ elim (Result-cases (ask p)) [
          | inl (r, a) ↦ (
            _,
            _,
            ground (
              arith,
              fresh,
              l,
              a,
              length-names history n,
              ap (λ x. length (x ++ (n ∷ []))) names,
              names,
            ),
            answered history n p r
                (subst (All (IsPassedOver providers ask enable_fallback)) (sym names) over) l a,
          )
          | inr (e, a) ↦ elim (Bool-cases (is_retryable_failure e && enable_fallback)) [
            | inr stop ↦
                (_, _, ground (arith, fresh, l, a, stop), refused attempted n p e over l a stop)
            | inl go ↦
                let (r, all, found, outcome) =
                  attempt-Returned fuel asked (history ++ ((n, text_of e) ∷ []))
                    (next_target primary fallback n asked (keys providers)) np nk
                    (ground (arith, lt, candidates-lt n p attempted providers l, fresh))
                    (names-snoc history n (text_of e) ∙ ap (λ x. x ++ (n ∷ [])) names)
                    (All-snoc (IsPassedOver providers ask enable_fallback) attempted n over
                      (p, e, l, a, ground (arith, go), ground (arith, go)))
                    (next_target-IsTarget n attempted t) in
                (r, all, ground (arith, fresh, l, a, go, found), outcome)
          ]
        ]
      ]
