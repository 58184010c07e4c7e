-- ===== src/Base/Count.antt =====
-- How often an item stands in a list; the pigeonhole principle in terms of it.
use enterprise_multi_agent_o.Base.{
  ℕ, suc, ◌+◌, ◌≤◌, ◌<◌, ◌≡◌, true, List, [], ◌∷◌, ◌++◌, Eq, ◌==◌, contains, if◌then◌else◌, arith,
}
use enterprise_multi_agent_o.Base.Lists.{length}

module _ {ℓ} {A : Type ℓ} ⦃e : Eq A⦄ where
  abbrev pub count : A → List A → ℕ
  count a [] = 0
  count a (x ∷ xs) = (if a == x then 1 else 0) + count a xs

  -- `xs.remove(a)`, where an `a` is there.
  abbrev pub remove : A → List A → List A
  remove a [] = []
  remove a (x ∷ xs) = if a == x then xs else x ∷ remove a xs

  pub count-append : (a : A) (xs ys : List A) → count a (xs ++ ys) ≡ count a xs + count a ys
  count-append a [] ys = omega arith
  count-append a (x ∷ xs) ys = omega (arith, count-append a xs ys)

  pub contains-of_count : (a : A) (xs : List A) → 0 < count a xs → contains xs a ≡ true
  contains-of_count a [] h = elim h [ ]
  contains-of_count a (x ∷ xs) h = ground (arith, contains-of_count a xs)

  pub count-of_contains : (a : A) (xs : List A) → contains xs a ≡ true → 0 < count a xs
  count-of_contains a [] h = cc
  count-of_contains a (x ∷ xs) h = ground (arith, count-of_contains a xs)

  count-remove :
      (a b : A) (xs : List A)
      → 0 < count a xs
      → count b (remove a xs) + (if b == a then 1 else 0) ≡ count b xs
  count-remove a b [] h = elim h [ ]
  count-remove a b (x ∷ xs) h = ground (arith, count-remove a b xs)

  length-remove : (a : A) (xs : List A) → 0 < count a xs → suc (length (remove a xs)) ≡ length xs
  length-remove a [] h = elim h [ ]
  length-remove a (x ∷ xs) h = ground (arith, length-remove a xs)

  -- What stands in `xs` at most as often as in `ys`, for every item, makes `xs` no longer.
  pub length-le_of_count :
      (xs ys : List A) → ((a : A) → count a xs ≤ count a ys) → length xs ≤ length ys
  length-le_of_count [] ys h = omega arith
  length-le_of_count (x ∷ xs) ys h =
      let has : 0 < count x ys = ground (arith, h x) in
      omega (
        arith,
        length-remove x ys has,
        length-le_of_count xs (remove x ys) (λ a. ground (arith, h a, count-remove x a ys has)),
      )

  -- If it is no shorter either, the two hold the same items.
  pub count-le_of_length :
      (xs ys : List A)
      → ((a : A) → count a xs ≤ count a ys)
      → length ys ≤ length xs
      → (a : A) → count a ys ≤ count a xs
  count-le_of_length [] [] h l a = omega arith
  count-le_of_length [] (y ∷ ys) h l a = absurd (omega arith)
  count-le_of_length (x ∷ xs) ys h l a =
      let has : 0 < count x ys = ground (arith, h x) in
      let rest : length (remove x ys) ≤ length xs = omega (arith, length-remove x ys has) in
      let ih : count a (remove x ys) ≤ count a xs =
        count-le_of_length xs (remove x ys) (λ b. ground (arith, h b, count-remove x b ys has)) rest
          a in
      ground (arith, ih, count-remove x a ys has)
