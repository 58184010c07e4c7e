-- ===== src/Security/Access/Credentials.antt =====
-- security/authenticators.py: the keys and tokens of a request, and the configured digests.
use enterprise_multi_agent_o.Base.{
  String, ◌≡◌, refl, ◌⊎◌, inl, inr, true, ◌||◌, Option, none, some, List, [], ◌∷◌, ◌==◌, ==-cases,
  string_eq, or_else, arith, subst, sym, ap, ◌∙◌, Bool-cases, Option-cases,
}
use enterprise_multi_agent_o.Base.Dict.{Dict, insert}
use enterprise_multi_agent_o.Base.Lists.{In, here, there}
use enterprise_multi_agent_o.Base.Text.{strip_text, split_once}
use enterprise_multi_agent_o.Core.Types.{nonempty}
use enterprise_multi_agent_o.Errors.{ok}
use enterprise_multi_agent_o.Security.Authenticators.{Headers}
use enterprise_multi_agent_o.Security.Authenticators.Keys.{
  KeyGrant, normalize_hashes, extract_raw_key, match_hash, nonblank, key_of_parts,
}
use enterprise_multi_agent_o.Security.Authenticators.Tokens.{extract_token, token_of_parts}

-- The second word of a header with the scheme before it.
abbrev pub IsScheme :
    (lower : String → String) (schemes : List String) (value word : String) → Type 0
IsScheme lower schemes value word =
    (scheme : String) × (rest : String) × (split_once (strip_text value) ≡ scheme ∷ rest ∷ [])
    × In (lower scheme) schemes
    × (strip_text rest ≡ word)

-- The request carries the key: in its header, or where that is missing, after a scheme for keys in
-- the Authorization header.
abbrev pub CarriesKey : (lower : String → String) (header_name key : String) → Headers → Type 0
CarriesKey lower header_name key headers =
    ((value : String) × (headers header_name ≡ some value) × (strip_text value ≡ key))
    ⊎ ((value : String) × (headers header_name ≡ none)
        × (headers "Authorization" ≡ some value)
        × IsScheme lower ("apikey" ∷ "api-key" ∷ []) value key)

-- The request carries the token, after the scheme for tokens in the Authorization header.
abbrev pub CarriesToken : (lower : String → String) (token : String) → Headers → Type 0
CarriesToken lower token headers =
    IsScheme lower ("bearer" ∷ []) (or_else (headers "Authorization") "") token

-- The digest is one of the configured ones, up to case and white space around it, with the grant.
abbrev pub IsConfigured :
    (lower : String → String) (digest : String) (grant : KeyGrant) → Dict String KeyGrant → Type 0
IsConfigured lower digest grant hashes =
    (raw : String) × In (raw, grant) hashes × (strip_text (lower raw) ≡ digest)

kept-In :
    (i j k : String) (u v : KeyGrant) (d : Dict String KeyGrant)
    → k ≡ i
    → In (j, u) ((i, v) ∷ d)
    → ((j ≡ k) × (u ≡ v)) ⊎ In (j, u) d
kept-In i j k u v d same (here e) = inl (ap (λ p. p.0) e ∙ sym same, ap (λ p. p.1) e)
kept-In i j k u v d same (there m) = inr m

moved-In :
    (i j k : String) (u v w : KeyGrant) (d e : Dict String KeyGrant)
    → (In (j, u) e → ((j ≡ k) × (u ≡ v)) ⊎ In (j, u) d)
    → In (j, u) ((i, w) ∷ e)
    → ((j ≡ k) × (u ≡ v)) ⊎ In (j, u) ((i, w) ∷ d)
moved-In i j k u v w d e rest (here h) = inr (here h)
moved-In i j k u v w d e rest (there m) = elim (rest m) [
  | inl new ↦ inl new
  | inr old ↦ inr (there old)
]

insert-In :
    (j k : String) (u v : KeyGrant) (d : Dict String KeyGrant)
    → In (j, u) (insert k v d)
    → ((j ≡ k) × (u ≡ v)) ⊎ In (j, u) d
unfolding insert
insert-In j k u v [] (here e) = inl (ap (λ p. p.0) e, ap (λ p. p.1) e)
insert-In j k u v [] (there m) = elim m [ ]
insert-In j k u v ((i, w) ∷ d) m = elim (==-cases k i) [
  | inl (e, same) ↦
      let put : insert k v ((i, w) ∷ d) ≡ (i, v) ∷ d = ground (arith, e) in
      elim (kept-In i j k u v d same (subst (In (j, u)) put m)) [
        | inl new ↦ inl new
        | inr old ↦ inr (there old)
      ]
  | inr (e, _) ↦
      let put : insert k v ((i, w) ∷ d) ≡ (i, w) ∷ insert k v d = ground (arith, e) in
      moved-In i j k u v w d (insert k v d) (insert-In j k u v d) (subst (In (j, u)) put m)
]

module _ (lower : String → String) where
  normalize_hashes-IsConfigured :
      (hashes d : Dict String KeyGrant) (j : String) (u : KeyGrant)
      → In (j, u) (normalize_hashes lower hashes d)
      → IsConfigured lower j u hashes ⊎ In (j, u) d
  unfolding normalize_hashes
  normalize_hashes-IsConfigured [] d j u m = inr m
  normalize_hashes-IsConfigured ((k, v) ∷ more) d j u m =
      elim (normalize_hashes-IsConfigured more (insert (strip_text (lower k)) v d) j u m) [
        | inl (raw, listed, same) ↦ inl (raw, there listed, same)
        | inr inserted ↦ elim (insert-In j (strip_text (lower k)) u v d inserted) [
          | inl (named, given) ↦ inl (k, here (ap (λ w. (k, w)) given), sym named)
          | inr before ↦ inr before
        ]
      ]

  match_hash-In :
      (digest stored : String) (grant : KeyGrant) (d : Dict String KeyGrant)
      → match_hash digest d ≡ some (stored, grant)
      → (stored ≡ digest) × In (stored, grant) d
  unfolding match_hash
  match_hash-In digest stored grant [] h = absurd (ground (arith, h))
  match_hash-In digest stored grant ((k, v) ∷ d) h = elim (==-cases digest k) [
    | inl (e, same) ↦
        let found : (k, v) ≡ (stored, grant) = ground (arith, h, e) in
        (sym (ap (λ p. p.0) found) ∙ sym same, here (sym found))
    | inr (e, _) ↦
        let (same, m) = match_hash-In digest stored grant d (ground (arith, h, e)) in
        (same, there m)
  ]

  pub match_hash-IsConfigured :
      (digest stored : String) (grant : KeyGrant) (hashes : Dict String KeyGrant)
      → match_hash digest (normalize_hashes lower hashes []) ≡ some (stored, grant)
      → (stored ≡ digest) × IsConfigured lower digest grant hashes
  match_hash-IsConfigured digest stored grant hashes h =
      let (same, m) = match_hash-In digest stored grant (normalize_hashes lower hashes []) h in
      elim (normalize_hashes-IsConfigured hashes [] stored grant m) [
        | inl (raw, listed, e) ↦ (same, (raw, listed, e ∙ same))
        | inr nowhere ↦ elim nowhere [ ]
      ]

  -- The two parts of a header, its scheme and what follows, for a scheme of the list.
  abbrev IsParts : (schemes parts : List String) → (word : String) → Type 0
  IsParts schemes parts word =
      (scheme : String) × (rest : String) × (parts ≡ scheme ∷ rest ∷ [])
      × In (lower scheme) schemes
      × (strip_text rest ≡ word)

  nonblank-strips :
      (s key : String) → nonblank lower s ≡ ok key → (strip_text s ≡ key) × (nonempty key ≡ true)
  unfolding nonblank
  nonblank-strips s key h = elim (Bool-cases (nonempty (strip_text s))) [
    | inl there_is ↦
        let same : strip_text s ≡ key = ground (arith, h, there_is) in
        (same, ap nonempty (sym same) ∙ there_is)
    | inr empty ↦ absurd (ground (arith, h, empty))
  ]

  key_of_parts-IsParts :
      (parts : List String) (key : String)
      → key_of_parts lower parts ≡ ok key
      → IsParts ("apikey" ∷ "api-key" ∷ []) parts key × (nonempty key ≡ true)
  unfolding key_of_parts
  key_of_parts-IsParts [] key h = absurd (ground (arith, h))
  key_of_parts-IsParts (scheme ∷ []) key h =
      absurd (ground (arith, h, Bool-cases (lower scheme == "apikey" || lower scheme == "api-key")))
  key_of_parts-IsParts (scheme ∷ rest ∷ []) key h = elim (==-cases (lower scheme) "apikey") [
    | inl (e, same) ↦
        let (stripped, full) = nonblank-strips rest key (ground (arith, h, e)) in
        ((scheme, rest, refl, here same, stripped), full)
    | inr (e, _) ↦ elim (==-cases (lower scheme) "api-key") [
      | inl (f, same) ↦
          let (stripped, full) = nonblank-strips rest key (ground (arith, h, e, f)) in
          ((scheme, rest, refl, there (here same), stripped), full)
      | inr (f, _) ↦ absurd (ground (arith, h, e, f))
    ]
  ]
  key_of_parts-IsParts (a ∷ b ∷ c ∷ more) key h = absurd (ground (arith, h))

  no_token : (token : Option String) → token ≡ none → nonempty (or_else token "") ≡ true → ⊥
  unfolding nonempty string_eq
  no_token token e full =
      let full' = subst (λ t. nonempty (or_else t "") ≡ true) e full in ground (arith, full')

  token_of_parts-IsParts :
      (parts : List String) (token : Option String)
      → token_of_parts lower parts ≡ ok token
      → nonempty (or_else token "") ≡ true
      → IsParts ("bearer" ∷ []) parts (or_else token "")
  unfolding token_of_parts
  token_of_parts-IsParts [] token h full = absurd (no_token token (ground (arith, h)) full)
  token_of_parts-IsParts (scheme ∷ []) token h full = elim (Bool-cases (lower scheme == "bearer")) [
    | inl e ↦ absurd (ground (arith, h, e))
    | inr e ↦ absurd (no_token token (ground (arith, h, e)) full)
  ]
  token_of_parts-IsParts (scheme ∷ rest ∷ []) token h full =
      elim (==-cases (lower scheme) "bearer") [
        | inl (e, same) ↦
            let given : some (strip_text rest) ≡ token = ground (arith, h, e) in
            (scheme, rest, refl, here same, ap (λ t. or_else t "") given)
        | inr (e, _) ↦ absurd (no_token token (ground (arith, h, e)) full)
      ]
  token_of_parts-IsParts (a ∷ b ∷ c ∷ more) token h full =
      absurd (no_token token (ground (arith, h)) full)

  pub extract_token-CarriesToken :
      (headers : Headers) (token : Option String)
      → extract_token lower headers ≡ ok token
      → nonempty (or_else token "") ≡ true
      → CarriesToken lower (or_else token "") headers
  unfolding extract_token
  extract_token-CarriesToken headers token h full =
      token_of_parts-IsParts (split_once (strip_text (or_else (headers "Authorization") ""))) token
        h full

  pub extract_raw_key-CarriesKey :
      (header_name : String) (headers : Headers) (key : String)
      → extract_raw_key lower header_name headers ≡ ok key
      → CarriesKey lower header_name key headers × (nonempty key ≡ true)
  unfolding extract_raw_key
  extract_raw_key-CarriesKey header_name headers key h = elim (Option-cases (headers header_name)) [
    | inr (value, given) ↦
        let (stripped, full) = nonblank-strips value key (ground (arith, h, given)) in
        (inl (value, given, stripped), full)
    | inl nothing ↦ elim (Option-cases (headers "Authorization")) [
      | inl no_header ↦ absurd (ground (arith, h, nothing, no_header))
      | inr (value, given) ↦
          let (parts, full) =
            key_of_parts-IsParts (split_once (strip_text value)) key
              (ground (arith, h, nothing, given)) in
          (inr (value, nothing, given, parts), full)
    ]
  ]
