-- ===== src/Retrieval/Chunking/Cover.antt =====
-- The parts of the text that the chunks of retrieval/chunking.py come from.
use mathlib.Core.List.{append_assoc, append-nil}
use enterprise_multi_agent_o.Base.{
  ℕ, zero, suc, ◌+◌, ◌-◌, ◌≤◌, ◌<◌, min, String, ◌≡◌, refl, ap, sym, subst, ◌∙◌, ◌++◌, inl, inr,
  Bool, true, false, ◌&&◌, ◌==◌, some, List, [], ◌∷◌, ltb, leb, if◌then◌else◌, nat_eq, Bool-cases,
  arith,
}
use enterprise_multi_agent_o.Base.Lists.{
  length, take, drop, all, head?, In, here, there, length-take, length-append, take-append-drop,
}
use enterprise_multi_agent_o.Base.Text.{is_space, strip}
use enterprise_multi_agent_o.Core.Types.{truthy}
use enterprise_multi_agent_o.Retrieval.Chunking.{
  Document, DocumentChunk, SimpleTextChunker, make_chunk, cut, chunk_document,
}
use enterprise_multi_agent_o.Retrieval.Chunking.Windows.{
  strip-IsStripped, ink-after, ink-before, take-head, length-strip, drop-drop, position-lt,
}

-- The chunk's part of the text has the position.
abbrev pub spans : ℕ → DocumentChunk → Bool
spans i k = leb k.metadata.start_char i && ltb i k.metadata.end_char

-- The content of the chunk stands in the text, around the position `p`, in the part that the chunk
-- says it is from.
pub record Shows (text : List ℕ) (p : ℕ) (k : DocumentChunk) : Type 0 where
  pub before : List ℕ
  pub after : List ℕ
  pub split : text ≡ before ++ (k.content ++ after)
  pub from : length before ≤ p
  pub to : p < length before + length k.content
  pub spanned : spans p k ≡ true

-- Some chunk shows the character at the position.
abbrev pub IsShown : (text : List ℕ) (p : ℕ) → List DocumentChunk → Type 0
IsShown text p chunks = (k : DocumentChunk) × In k chunks × Shows text p k

-- A chunk has text, no more than the size, from a part of the text that is no longer than that.
abbrev pub is_sized : (chunk_size text_length : ℕ) → DocumentChunk → Bool
is_sized size n k =
    truthy k.content
    && leb (length k.content) size
    && ltb k.metadata.start_char k.metadata.end_char
    && leb k.metadata.end_char (k.metadata.start_char + size)
    && leb k.metadata.end_char n

nonempty_text : (text : List ℕ) → 0 < length text → truthy text ≡ true
nonempty_text [] lt = absurd (omega (arith, lt))
nonempty_text (y ∷ ys) lt = refl

module _ (str : ℕ → String) (c : SimpleTextChunker) (valid : c.chunk_overlap < c.chunk_size)
    (d : Document) where
  -- A chunk whose content is the stripped text of a window shows the characters there.
  strip-Shows :
      (text : List ℕ) (start w p x : ℕ) (k : DocumentChunk)
      → start ≤ p
      → p < start + w
      → head? (drop p text) ≡ some x
      → is_space x ≡ false
      → k.content ≡ strip (take w (drop start text))
      → spans p k ≡ true
      → Shows text p k
  strip-Shows text start w p x k le lt here_is ink content spanned =
      let slice = take w (drop start text) in
      let st = strip-IsStripped slice in
      let at : start + (p - start) ≡ p = omega (arith, le) in
      let inside = position-lt p text x here_is in
      let at_slice =
        take-head w (p - start) (drop start text) (omega (arith, le, lt))
        ∙ ap (head? {A = ℕ}) (drop-drop start (p - start) text)
        ∙ ap (λ n. head? (drop n text)) at
        ∙ here_is in
      let (i, place, same) =
        ink-after st.before (strip slice ++ st.after) (p - start) x st.blank_before
          (ap (λ ys. head? (drop (p - start) ys)) (sym st.split) ∙ at_slice) ink in
      let short = ink-before (strip slice) st.after i x st.blank_after same ink in
      let rest = drop w (drop start text) in
      let long : length (take start text ++ st.before) ≡ start + length st.before =
        length-append (take start text) st.before
        ∙ ap (λ n. n + length st.before) (length-take start text ∙ omega (arith, le, inside)) in
      record {
        before = take start text ++ st.before;
        after = st.after ++ rest;
        split =
            sym (take-append-drop start text)
            ∙ ap (λ ys. take start text ++ ys)
                (sym (take-append-drop w (drop start text))
                  ∙ ap (λ ys. ys ++ rest) st.split
                  ∙ append_assoc st.before (strip slice ++ st.after) rest
                  ∙ ap (λ ys. st.before ++ ys)
                      (append_assoc (strip slice) st.after rest
                        ∙ ap (λ ys. ys ++ (st.after ++ rest)) (sym content)))
            ∙ sym (append_assoc (take start text) st.before (k.content ++ (st.after ++ rest)));
        from = omega (arith, long, place, le);
        to = omega (arith, long, place, le, short, ap length content);
        spanned = spanned;
      }

  more-IsShown :
      (text : List ℕ) (p : ℕ) (b : Bool) (k : DocumentChunk) (chunks : List DocumentChunk)
      → IsShown text p chunks
      → IsShown text p (if b then k ∷ chunks else chunks)
  more-IsShown text p true k chunks (l, m, shows) = (l, there m, shows)
  more-IsShown text p false k chunks shown = shown

  cut-IsShown :
      (text : List ℕ) (fuel start p i x : ℕ)
      → length text ≤ fuel + start
      → start ≤ p
      → head? (drop p text) ≡ some x
      → is_space x ≡ false
      → IsShown text p (cut str c d text fuel start i)
  unfolding cut
  cut-IsShown text zero start p i x enough le here_is ink =
      absurd (omega (arith, enough, le, position-lt p text x here_is))
  cut-IsShown text (suc fuel) start p i x enough le here_is ink =
      let end_ = min (start + c.chunk_size) (length text) in
      let slice = take (end_ - start) (drop start text) in
      let i' = if truthy (strip slice) then i + 1 else i in
      let next = start + (c.chunk_size - c.chunk_overlap) in
      let inside = position-lt p text x here_is in
      let k = make_chunk str d i start end_ (strip slice) in
      let rest = cut str c d text fuel next i' in
      elim (Bool-cases (ltb p end_)) [
        | inl t ↦
            let shows =
              strip-Shows text start (end_ - start) p x k le (ground (arith, t, le)) here_is ink
                refl (ground (arith, t, le)) in
            let full = nonempty_text (strip slice) (omega (arith, shows.from, shows.to)) in
            let after = if end_ == length text then [] else rest in
            let e : k ∷ after ≡ cut str c d text (suc fuel) start i =
              ground (arith, le, inside, full) in
            subst (IsShown text p) e (k, here refl, shows)
        | inr t ↦
            let later =
              cut-IsShown text fuel next p i' x (ground (arith, enough, valid))
                (ground (arith, t, inside, valid)) here_is ink in
            let e : (if truthy (strip slice) then k ∷ rest else rest)
                ≡ cut str c d text (suc fuel) start i =
              ground (arith, t, le, inside) in
            subst (IsShown text p) e (more-IsShown text p (truthy (strip slice)) k rest later)
      ]

  -- If the overlap is less than the size, every character of the stripped text that is not white
  -- space lies in the content of some chunk, which stands in the text as it is, and in the part of
  -- the text that the chunk says it is from.
  pub chunk_document-covers :
      (p x : ℕ)
      → head? (drop p (strip d.content)) ≡ some x
      → is_space x ≡ false
      → IsShown (strip d.content) p (chunk_document str c d)
  unfolding chunk_document
  chunk_document-covers p x here_is ink =
      let text = strip d.content in
      let inside = position-lt p text x here_is in
      let full = nonempty_text text (omega (arith, inside)) in
      let k = make_chunk str d 0 0 (length text) text in
      elim (Bool-cases (leb (length text) c.chunk_size)) [
        | inl short ↦
            let e : k ∷ [] ≡ chunk_document str c d = ground (arith, full, short) in
            subst (IsShown text p) e (
              k,
              here refl,
              record {
                before = [];
                after = [];
                split = sym (append-nil text);
                from = omega arith;
                to = omega (arith, inside);
                spanned = ground (arith, inside);
              },
            )
        | inr long ↦
            let e : cut str c d text (length text) 0 0 ≡ chunk_document str c d =
              ground (arith, full, long) in
            subst (IsShown text p) e
              (cut-IsShown text (length text) 0 p 0 x (omega arith) (omega arith) here_is ink)
      ]

  cut-is_sized :
      (text : List ℕ) (fuel start i : ℕ)
      → all (is_sized c.chunk_size (length text)) (cut str c d text fuel start i) ≡ true
  unfolding cut
  cut-is_sized text zero start i = refl
  cut-is_sized text (suc fuel) start i =
      let end_ = min (start + c.chunk_size) (length text) in
      let slice = take (end_ - start) (drop start text) in
      let i' = if truthy (strip slice) then i + 1 else i in
      let rest = cut-is_sized text fuel (start + (c.chunk_size - c.chunk_overlap)) i' in
      ground (arith, valid, rest, length-strip slice, length-take (end_ - start) (drop start text))

  -- Every chunk has a text that is not empty and not longer than the size, and the part of the
  -- stripped text that it was cut from is not empty, no longer than the size and inside the text.
  pub chunk_document-is_sized :
      all (is_sized c.chunk_size (length (strip d.content))) (chunk_document str c d) ≡ true
  unfolding chunk_document
  chunk_document-is_sized =
      let text = strip d.content in
      ground (arith, valid, cut-is_sized text (length text) 0 0, positive text)
    where
      positive : (text : List ℕ) → ltb 0 (length text) ≡ truthy text
      positive [] = refl
      positive (y ∷ ys) = ground arith
