-- ===== src/Providers/Router/Candidates.antt =====
-- The providers that providers/router.py has not attempted yet.
use enterprise_multi_agent_o.Base.{
  ◌≤◌, ◌<◌, String, ◌≡◌, refl, ap, subst, ◌≢◌, inl, inr, true, false, ◌||◌, none, some, List, [],
  ◌∷◌, ◌++◌, map, ◌==◌, ==-cases, contains, string_eq, Bool-cases, arith,
}
use enterprise_multi_agent_o.Base.Dict.{Dict, keys, lookup}
use enterprise_multi_agent_o.Base.Lists.{length, head?, All}
use enterprise_multi_agent_o.Providers.Router.{candidates}

pub contains-snoc :
    (x y : String) (xs : List String) → contains (xs ++ (y ∷ [])) x ≡ contains xs x || (x == y)
contains-snoc x y [] = ground arith
contains-snoc x y (z ∷ xs) = ground (arith, contains-snoc x y xs)

candidates-le :
    (n : String) (attempted ks : List String)
    → length (candidates (attempted ++ (n ∷ [])) ks) ≤ length (candidates attempted ks)
unfolding candidates
candidates-le n attempted [] = omega arith
candidates-le n attempted (k ∷ ks) =
    ground (arith, candidates-le n attempted ks, contains-snoc k n attempted)

pub candidates-lt :
    {P : Type 0} (n : String) (p : P) (attempted : List String) (d : Dict String P)
    → lookup n d ≡ some p
    → contains attempted n ≡ false
    → length (candidates (attempted ++ (n ∷ [])) (keys d)) < length (candidates attempted (keys d))
unfolding candidates lookup
candidates-lt n p attempted [] h c = absurd (ground (arith, h))
candidates-lt n p attempted ((k, v) ∷ d) h c = elim (==-cases n k) [
  | inl (e, same) ↦ ground (
    arith,
    e,
    candidates-le n attempted (keys d),
    contains-snoc k n attempted,
    ap (contains attempted) same,
  )
  | inr (e, differ) ↦
      ground (arith, e, h, candidates-lt n p attempted d, c, contains-snoc k n attempted)
]

pub names-snoc :
    (h : List (String × String)) (n e : String)
    → map (λ f. f.0) (h ++ ((n, e) ∷ [])) ≡ map (λ f. f.0) h ++ (n ∷ [])
names-snoc [] n e = refl
names-snoc (f ∷ h) n e = ap (λ l. f.0 ∷ l) (names-snoc h n e)

pub no_candidates :
    (attempted ks : List String)
    → head? (candidates attempted ks) ≡ none
    → All (λ k. contains attempted k ≡ true) ks
unfolding candidates
no_candidates attempted [] h = tt
no_candidates attempted (k ∷ ks) h =
    (ground (arith, h), no_candidates attempted ks (ground (arith, h)))

pub candidate-fresh :
    (attempted ks : List String) (n : String)
    → head? (candidates attempted ks) ≡ some n
    → contains attempted n ≡ false
unfolding candidates
candidate-fresh attempted [] n h = absurd (ground (arith, h))
candidate-fresh attempted (k ∷ ks) n h = elim (Bool-cases (contains attempted k)) [
  | inl e ↦ candidate-fresh attempted ks n (ground (arith, h, e))
  | inr e ↦ subst (λ j. contains attempted j ≡ false) (ground (arith, h, e)) e
]

pub candidate-In :
    (Q : String → Type 0) (attempted ks : List String) (n : String)
    → All Q ks
    → head? (candidates attempted ks) ≡ some n
    → Q n
unfolding candidates
candidate-In Q attempted [] n q h = absurd (ground (arith, h))
candidate-In Q attempted (k ∷ ks) n (q, qs) h = elim (Bool-cases (contains attempted k)) [
  | inl e ↦ candidate-In Q attempted ks n qs (ground (arith, h, e))
  | inr e ↦ subst Q (ground (arith, h, e)) q
]

pub candidate-registered :
    {P : Type 0} (n : String) (attempted : List String) (d : Dict String P)
    → head? (candidates attempted (keys d)) ≡ some n
    → lookup n d ≢ none
unfolding candidates lookup
candidate-registered n attempted [] h l = ground (arith, h)
candidate-registered n attempted ((k, v) ∷ d) h l =
    ground (arith, h, l, candidate-registered n attempted d)

pub some-inj : {A : Type 0} {a b : A} → some a ≡ some b → a ≡ b
some-inj e = ground (arith, e)
