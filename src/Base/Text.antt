-- ===== src/Base/Text.antt =====
-- Texts as Python sees them: `str.strip` and truth values, over code points.
use Prim.Native.Char.{Char, code}
use Prim.Native.String.{String}
use mathlib.Core.Bool.{Bool, not, ◌&&◌, ◌||◌}
use mathlib.Core.List.{List, [], ◌∷◌, reverse}
use Prim.Native.Nat.{ℕ, zero, suc}
use enterprise_multi_agent_o.Base.Equality.{if◌then◌else◌, nat_eq, contains}
use enterprise_multi_agent_o.Base.Tests.{leb}
use enterprise_multi_agent_o.Base.Lists.{all}

-- The code points of a text.
abbrev pub codes : String → List ℕ
codes String.[] = []
codes (String.◌∷◌ c s) = code c ∷ codes s

-- `str.isspace` of one character.
unfoldable pub is_space : ℕ → Bool
is_space c =
    leb 9 c && leb c 13
    || leb 28 c && leb c 32
    || leb 8192 c && leb c 8202
    || contains (133 ∷ 160 ∷ 5760 ∷ 8232 ∷ 8233 ∷ 8239 ∷ 8287 ∷ 12288 ∷ []) c

-- `s and s.strip()`, as a truth value.
unfoldable pub is_nonblank : String → Bool
unfolding is_space
is_nonblank s = not (all is_space (codes s))

-- `lstrip`, and `strip`.
unfoldable pub lstrip : List ℕ → List ℕ
unfolding is_space
lstrip [] = []
lstrip (c ∷ cs) = if is_space c then lstrip cs else c ∷ cs

unfoldable pub strip : List ℕ → List ℕ
unfolding lstrip
strip cs = reverse (lstrip (reverse (lstrip cs)))

-- The same on texts: `str.lstrip`, `str.rstrip` and `str.strip`.
unfoldable pub lstrip_text : String → String
unfolding is_space
lstrip_text String.[] = String.[]
lstrip_text (String.◌∷◌ c s) = if is_space (code c) then lstrip_text s else String.◌∷◌ c s

abbrev put_back : Char → String → String
unfolding is_space
put_back c String.[] = if is_space (code c) then String.[] else String.◌∷◌ c String.[]
put_back c (String.◌∷◌ d s) = String.◌∷◌ c (String.◌∷◌ d s)

unfoldable pub rstrip_text : String → String
unfolding put_back
rstrip_text String.[] = String.[]
rstrip_text (String.◌∷◌ c s) = put_back c (rstrip_text s)

unfoldable pub strip_text : String → String
unfolding lstrip_text rstrip_text
strip_text s = rstrip_text (lstrip_text s)

-- The first word of a text without leading white space, and the rest.
unfoldable pub first_word : String → String × String
unfolding is_space
first_word String.[] = (String.[], String.[])
first_word (String.◌∷◌ c s) =
    let (word, rest) = first_word s in
    if is_space (code c) then (String.[], String.◌∷◌ c s) else (String.◌∷◌ c word, rest)

-- `s[:n]`
unfoldable pub prefix_text : ℕ → String → String
prefix_text zero s = String.[]
prefix_text (suc n) String.[] = String.[]
prefix_text (suc n) (String.◌∷◌ c s) = String.◌∷◌ c (prefix_text n s)

abbrev words : String × String → List String
unfolding lstrip_text
words (String.[], _) = []
words (String.◌∷◌ c word, rest) = elim (lstrip_text rest) [
  | String.[] ↦ String.◌∷◌ c word ∷ []
  | String.◌∷◌ d more ↦ String.◌∷◌ c word ∷ String.◌∷◌ d more ∷ []
]

-- `s.split(maxsplit=1)`
unfoldable pub split_once : String → List String
unfolding lstrip_text first_word words
split_once s = words (first_word (lstrip_text s))
