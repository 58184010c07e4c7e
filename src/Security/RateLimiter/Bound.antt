-- ===== src/Security/RateLimiter/Bound.antt =====
-- The limit of security/rate_limiter.py over a run of checks.
use mathlib.Core.Path.{subst₂}
use enterprise_multi_agent_o.Base.{
  ℕ, ◌≤◌, ◌<◌, String, ◌≡◌, refl, sym, ◌∙◌, ap, subst, ◌⊎◌, inl, inr, Bool, false, ◌&&◌, List, [],
  ◌∷◌, ◌++◌, ltb, ◌==◌, ==-cases, if◌then◌else◌, string_eq, arith,
}
use enterprise_multi_agent_o.Base.Lists.{
  length, select, All, All-snoc, length-append, length-select-le,
}
use enterprise_multi_agent_o.Errors.{Result, ok, raises}
use enterprise_multi_agent_o.Security.RateLimiter.{
  Store, Quota, history, clean_up, in_window, check_rate_limit,
}
use enterprise_multi_agent_o.Security.RateLimiter.Window.{
  IsSorted, select-All, select-IsSorted, append-IsSorted, select-select, select-append,
  history-clean_up, clean_up-select, history-put_last,
}

abbrev pub grants : Result Quota → Bool
grants (ok q) = q.is_allowed
grants (raises _) = false

-- A check of a key at a time.
abbrev pub Check : Type 0
Check = ℕ × String

-- The checks come in order, none before `t` and none after `end`.
abbrev pub InOrder : (t end : ℕ) → List Check → Type 0
InOrder t end [] = t ≤ end
InOrder t end ((now, key) ∷ checks) = (t ≤ now) × InOrder now end checks

module _ (max_keys max_requests window : ℕ) where
  -- The times at which checks of the key `k` are granted, after those in `log`.
  unfoldable pub granted : (k : String) (log : List ℕ) → List Check → Store → List ℕ
  unfolding check_rate_limit
  granted k log [] store = log
  granted k log ((now, key) ∷ checks) store =
      let (answer, store) = check_rate_limit max_keys now key max_requests window store in
      granted k (if grants answer && key == k then log ++ (now ∷ []) else log) checks store

  unfoldable pub serve : List Check → Store → Store
  unfolding check_rate_limit
  serve [] store = store
  serve ((now, key) ∷ checks) store =
      serve checks (check_rate_limit max_keys now key max_requests window store).1

  -- What the store keeps of a key agrees in the window with all that was granted.
  abbrev Agrees : ℕ → List ℕ → List ℕ → Type 0
  Agrees now kept log =
      IsSorted kept
      × All (λ t. t ≤ now) kept
      × (select (in_window now window) kept ≡ select (in_window now window) log)
      × (length (select (in_window now window) log) ≤ max_requests)

  All-later : (t now : ℕ) (ts : List ℕ) → t ≤ now → All (λ u. u ≤ t) ts → All (λ u. u ≤ now) ts
  All-later t now [] h a = tt
  All-later t now (u ∷ us) h (a, more) = (ground (arith, a, h), All-later t now us h more)

  later-Agrees : (t now : ℕ) (kept log : List ℕ) → t ≤ now → Agrees t kept log → Agrees now kept log
  later-Agrees t now kept log h (s, a, e, b) = (
    s,
    All-later t now kept h a,
    sym (select-select t now window kept h)
        ∙ ap (select (in_window now window)) e
        ∙ select-select t now window log h,
    ground (
      arith,
      select-select t now window log h,
      length-select-le (in_window now window) (select (in_window t window) log),
      b,
    ),
  )

  cleaned-Agrees :
      (now : ℕ) (k : String) (store : Store) (log : List ℕ)
      → Agrees now (history k store) log
      → Agrees now (history k (clean_up max_keys now window store)) log
  cleaned-Agrees now k store log (s, a, e, b) =
      elim (history-clean_up max_keys now window k store) [
        | inl same ↦ subst (λ h. Agrees now h log) (sym same) (s, a, e, b)
        | inr (gone, _) ↦ (
          subst IsSorted (sym gone) tt,
          subst (All (λ t. t ≤ now)) (sym gone) tt,
          clean_up-select max_keys now window k store s ∙ e,
          b,
        )
      ]

  pruned-Agrees :
      (now : ℕ) (kept log : List ℕ)
      → Agrees now kept log
      → Agrees now (select (in_window now window) kept) log
  pruned-Agrees now kept log (s, a, e, b) = (
    select-IsSorted (in_window now window) kept s,
    select-All (λ t. t ≤ now) (in_window now window) kept a,
    select-select now now window kept (omega arith) ∙ e,
    b,
  )

  granted-Agrees :
      (now : ℕ) (kept log : List ℕ)
      → Agrees now kept log
      → length (select (in_window now window) log) < max_requests
      → Agrees now (kept ++ (now ∷ [])) (log ++ (now ∷ []))
  granted-Agrees now kept log (s, a, e, b) room = (
    append-IsSorted kept now s a,
    All-snoc (λ t. t ≤ now) kept now a (omega arith),
    ground (
      arith,
      e,
      select-append (in_window now window) kept (now ∷ []),
      select-append (in_window now window) log (now ∷ []),
    ),
    ground (
      arith,
      room,
      select-append (in_window now window) log (now ∷ []),
      length-append (select (in_window now window) log) (select (in_window now window) (now ∷ [])),
      length-select-le (in_window now window) (now ∷ []),
    ),
  )

  -- What a check does to the history of a key, by what it answers.
  check-history :
      (now : ℕ) (key k : String) (store : Store) (log : List ℕ)
      → let kept = history k (clean_up max_keys now window store) in
        let pruned = select (in_window now window) kept in
        let (answer, after) = check_rate_limit max_keys now key max_requests window store in
        let next = if grants answer && key == k then log ++ (now ∷ []) else log in
        ((history k after ≡ kept) × (next ≡ log))
        ⊎ ((history k after ≡ pruned) × (next ≡ log))
        ⊎ ((history k after ≡ pruned ++ (now ∷ []))
            × (next ≡ log ++ (now ∷ []))
            × (length pruned < max_requests))
  unfolding check_rate_limit
  check-history now key k store log =
      let cleaned = clean_up max_keys now window store in
      let pruned = select (in_window now window) (history key cleaned) in
      elim (==-cases key k) [
        | inl (e, same) ↦ ground (
          arith,
          e,
          ap (λ j. history j cleaned) same,
          history-put_last k key pruned cleaned,
          history-put_last k key (pruned ++ (now ∷ [])) cleaned,
        )
        | inr (e, differ) ↦ ground (
          arith,
          e,
          history-put_last k key pruned cleaned,
          history-put_last k key (pruned ++ (now ∷ [])) cleaned,
        )
      ]

  check-Agrees :
      (now : ℕ) (key k : String) (store : Store) (log : List ℕ)
      → Agrees now (history k store) log
      → let (answer, after) = check_rate_limit max_keys now key max_requests window store in
        Agrees now (history k after) (if grants answer && key == k then log ++ (now ∷ []) else log)
  check-Agrees now key k store log a =
      let kept = history k (clean_up max_keys now window store) in
      let a = cleaned-Agrees now k store log a in
      let p = pruned-Agrees now kept log a in
      elim (check-history now key k store log) [
        | inl (h, l) ↦ subst₂ (Agrees now) (sym h) (sym l) a
        | inr (inl (h, l)) ↦ subst₂ (Agrees now) (sym h) (sym l) p
        | inr (inr (h, l, room)) ↦ subst₂ (Agrees now) (sym h) (sym l) (
            granted-Agrees now (select (in_window now window) kept) log p
              (ground (arith, room, a.2)))
      ]

  run-Agrees :
      (k : String) (checks : List Check) (t end : ℕ) (store : Store) (log : List ℕ)
      → InOrder t end checks
      → Agrees t (history k store) log
      → Agrees end (history k (serve checks store)) (granted k log checks store)
  unfolding granted serve
  run-Agrees k [] t end store log le a = later-Agrees t end (history k store) log le a
  run-Agrees k ((now, key) ∷ checks) t end store log (le, more) a =
      run-Agrees k checks now end (check_rate_limit max_keys now key max_requests window store).1 _
        more (check-Agrees now key k store log (later-Agrees t now (history k store) log le a))

  served-Agrees :
      (k : String) (checks : List Check) (end : ℕ)
      → InOrder 0 end checks
      → Agrees end (history k (serve checks [])) (granted k [] checks [])
  unfolding history
  served-Agrees k checks end order =
      run-Agrees k checks 0 end [] [] order (tt, tt, refl, omega arith)

  -- From an empty store, over checks of any keys in the order of their times, and at any time
  -- after them, at most `max_requests` of the times at which a key was granted are in the window.
  pub granted-bounded :
      (k : String) (checks : List Check) (end : ℕ)
      → InOrder 0 end checks
      → length (select (in_window end window) (granted k [] checks [])) ≤ max_requests
  granted-bounded k checks end order = (served-Agrees k checks end order).3

  check-grants :
      (now : ℕ) (k : String) (store : Store) (log : List ℕ)
      → Agrees now (history k (clean_up max_keys now window store)) log
      → grants (check_rate_limit max_keys now k max_requests window store).0
        ≡ ltb (length (select (in_window now window) log)) max_requests
  unfolding check_rate_limit
  check-grants now k store log (s, a, e, b) = ground (arith, e)

  -- From an empty store, after checks of any keys in the order of their times, a further check of
  -- a key is granted exactly if fewer than `max_requests` of its granted times are in the window.
  pub grants-iff_room :
      (k : String) (checks : List Check) (end : ℕ)
      → InOrder 0 end checks
      → grants (check_rate_limit max_keys end k max_requests window (serve checks [])).0
        ≡ ltb (length (select (in_window end window) (granted k [] checks []))) max_requests
  grants-iff_room k checks end order =
      let a =
        cleaned-Agrees end k (serve checks []) (granted k [] checks [])
          (served-Agrees k checks end order) in
      check-grants end k (serve checks []) (granted k [] checks []) a
