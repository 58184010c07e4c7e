-- ===== src/Retrieval/Chunking/Windows.antt =====
-- What stripping and slicing leave of the characters that are not white space.
use mathlib.Core.List.{reverse, reverse-cons, reverse-reverse, reverse-append}
use enterprise_multi_agent_o.Base.{
  ℕ, zero, suc, ◌+◌, Bool-cases, inl, inr, ◌≤◌, ◌<◌, ◌≡◌, refl, sym, ap, ◌∙◌, true, false, some,
  List, [], ◌∷◌, ◌++◌, arith,
}
use enterprise_multi_agent_o.Base.Lists.{length, take, drop, all, head?, length-append}
use enterprise_multi_agent_o.Base.Text.{is_space, lstrip, strip}

-- A text is white space, its stripped part, and white space again.
pub record IsStripped (xs stripped : List ℕ) : Type 0 where
  pub before : List ℕ
  pub after : List ℕ
  pub split : xs ≡ before ++ (stripped ++ after)
  pub blank_before : all is_space before ≡ true
  pub blank_after : all is_space after ≡ true

all-append :
    (xs ys : List ℕ)
    → all is_space xs ≡ true
    → all is_space ys ≡ true
    → all is_space (xs ++ ys) ≡ true
all-append [] ys h i = i
all-append (x ∷ xs) ys h i = ground (arith, h, i, all-append xs ys)

all-reverse : (xs : List ℕ) → all is_space xs ≡ true → all is_space (reverse xs) ≡ true
all-reverse [] h = refl
all-reverse (x ∷ xs) h =
    ap (all is_space) (reverse-cons x xs)
    ∙ all-append (reverse xs) (x ∷ []) (all-reverse xs (ground (arith, h))) (ground (arith, h))

lstrip-split :
    (xs : List ℕ) → (before : List ℕ) × (xs ≡ before ++ lstrip xs) × (all is_space before ≡ true)
unfolding lstrip
lstrip-split [] = ([], refl, refl)
lstrip-split (x ∷ xs) = elim (Bool-cases (is_space x)) [
  | inl blank ↦
      let (before, split, spaces) = lstrip-split xs in
      (x ∷ before, ground (arith, blank, ap (λ ys. x ∷ ys) split), ground (arith, blank, spaces))
  | inr ink ↦ ([], ground (arith, ink), refl)
]

pub strip-IsStripped : (xs : List ℕ) → IsStripped xs (strip xs)
unfolding strip
strip-IsStripped xs =
    let (before, split, spaces) = lstrip-split xs in
    let (behind, split', spaces') = lstrip-split (reverse (lstrip xs)) in
    record {
      before = before;
      after = reverse behind;
      split =
          split
          ∙ ap (λ ys. before ++ ys)
              (sym (reverse-reverse (lstrip xs))
                ∙ ap reverse split'
                ∙ reverse-append behind (lstrip (reverse (lstrip xs))));
      blank_before = spaces;
      blank_after = all-reverse behind spaces';
    }

pub ink-after :
    (before rest : List ℕ) (j c : ℕ)
    → all is_space before ≡ true
    → head? (drop j (before ++ rest)) ≡ some c
    → is_space c ≡ false
    → (i : ℕ) × (j ≡ length before + i) × (head? (drop i rest) ≡ some c)
ink-after [] rest j c blank h ink = (j, omega arith, h)
ink-after (x ∷ before) rest zero c blank h ink =
    let e : x ≡ c = ground (arith, h) in absurd (ground (arith, blank, ink, ap is_space e))
ink-after (x ∷ before) rest (suc j) c blank h ink =
    let (i, at, same) = ink-after before rest j c (ground (arith, blank)) h ink in
    (i, omega (arith, at), same)

pub ink-before :
    (stripped after : List ℕ) (j c : ℕ)
    → all is_space after ≡ true
    → head? (drop j (stripped ++ after)) ≡ some c
    → is_space c ≡ false
    → j < length stripped
ink-before [] [] zero c blank h ink = absurd (ground (arith, h))
ink-before [] [] (suc j) c blank h ink = absurd (ground (arith, h))
ink-before [] (x ∷ after) zero c blank h ink =
    let e : x ≡ c = ground (arith, h) in absurd (ground (arith, blank, ink, ap is_space e))
ink-before [] (x ∷ after) (suc j) c blank h ink =
    absurd (no_less (ink-before [] after j c (ground (arith, blank)) h ink))
  where
    no_less : j < 0 → ⊥
    no_less lt = omega (arith, lt)
ink-before (x ∷ stripped) after zero c blank h ink = omega arith
ink-before (x ∷ stripped) after (suc j) c blank h ink =
    omega (arith, ink-before stripped after j c blank h ink)

pub take-head : (n j : ℕ) (xs : List ℕ) → j < n → head? (drop j (take n xs)) ≡ head? (drop j xs)
take-head zero j xs lt = absurd (omega (arith, lt))
take-head (suc n) zero [] lt = refl
take-head (suc n) (suc j) [] lt = refl
take-head (suc n) zero (x ∷ xs) lt = refl
take-head (suc n) (suc j) (x ∷ xs) lt = take-head n j xs (omega (arith, lt))

length-reverse : (xs : List ℕ) → length (reverse xs) ≡ length xs
length-reverse [] = refl
length-reverse (x ∷ xs) =
    ap length (reverse-cons x xs)
    ∙ ground (arith, length-append (reverse xs) (x ∷ []), length-reverse xs)

length-lstrip : (xs : List ℕ) → length (lstrip xs) ≤ length xs
unfolding lstrip
length-lstrip [] = omega arith
length-lstrip (x ∷ xs) = ground (arith, length-lstrip xs)

pub length-strip : (xs : List ℕ) → length (strip xs) ≤ length xs
unfolding strip
length-strip xs = ground (
  arith,
  length-reverse (lstrip (reverse (lstrip xs))),
  length-lstrip (reverse (lstrip xs)),
  length-reverse (lstrip xs),
  length-lstrip xs,
)

drop-nil : {A : Type 0} (n : ℕ) → drop {A = A} n [] ≡ []
drop-nil zero = refl
drop-nil (suc n) = refl

pub drop-drop : {A : Type 0} (s j : ℕ) (xs : List A) → drop j (drop s xs) ≡ drop (s + j) xs
drop-drop zero j xs = let e : j ≡ 0 + j = omega arith in ap (λ n. drop n xs) e
drop-drop (suc s) j [] = drop-nil j ∙ sym (drop-nil (suc s + j))
drop-drop (suc s) j (x ∷ xs) =
    let e : suc (s + j) ≡ suc s + j = omega arith in drop-drop s j xs ∙ ap (λ n. drop n (x ∷ xs)) e

pub position-lt : (j : ℕ) (xs : List ℕ) (c : ℕ) → head? (drop j xs) ≡ some c → j < length xs
position-lt zero [] c h = absurd (ground (arith, h))
position-lt (suc j) [] c h = absurd (ground (arith, h))
position-lt zero (x ∷ xs) c h = omega arith
position-lt (suc j) (x ∷ xs) c h = omega (arith, position-lt j xs c h)
