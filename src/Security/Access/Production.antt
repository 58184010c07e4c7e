-- ===== src/Security/Access/Production.antt =====
-- api/dependencies.py and security/authenticators.py: who is let in in production.
use enterprise_multi_agent_o.Base.{
  String, ◌≡◌, refl, ◌⊎◌, inl, inr, true, false, List, [], ◌∷◌, ◌++◌, ◌==◌, string_eq, or_else,
  arith, subst, ap, ==-self, Bool-cases, Option-cases,
}
use enterprise_multi_agent_o.Base.Dict.{Dict}
use enterprise_multi_agent_o.Base.Lists.{All}
use enterprise_multi_agent_o.Base.Text.{prefix_text, strip_text}
use enterprise_multi_agent_o.Core.Types.{nonempty}
use enterprise_multi_agent_o.Errors.{ok, Result-cases}
use enterprise_multi_agent_o.Security.Roles.{AuthenticatedIdentity}
use enterprise_multi_agent_o.Security.Authenticators.{Headers, Authenticator}
use enterprise_multi_agent_o.Security.Authenticators.Keys.{
  KeyGrant, normalize_hashes, authenticate_key, extract_raw_key, match_hash, key_identity,
}
use enterprise_multi_agent_o.Security.Authenticators.Tokens.{
  Decoded, Claims, payload, expired_signature, invalid_algorithm, missing_claim, other_error,
  authenticate_token, extract_token, read_token, token_identity, require_secret,
}
use enterprise_multi_agent_o.Security.Authenticators.Composite.{Gives, All-append}
use enterprise_multi_agent_o.Security.Access.Combined.{combine-Gives}
use enterprise_multi_agent_o.Security.Access.Credentials.{
  CarriesKey, CarriesToken, IsConfigured, match_hash-IsConfigured, extract_raw_key-CarriesKey,
  extract_token-CarriesToken,
}
use enterprise_multi_agent_o.Security.Access.{
  AuthSettings, get_authenticator, get_current_user, choose, combine, key_authenticators,
  token_authenticators,
}

production_differs : (◌==◌ {A = String} "production" "test") ≡ false
unfolding string_eq
production_differs = refl

module _ (lower sha256 : String → String) (decode : (secret_key : String) → String → Decoded) where
  -- The request has a key whose digest is configured, for which the identity stands.
  pub record IsByKey (settings : AuthSettings) (headers : Headers) (i : AuthenticatedIdentity)
      : Type 0 where
    pub key : String
    pub grant : KeyGrant
    pub given : CarriesKey lower "X-API-Key" key headers
    pub nonblank : nonempty key ≡ true
    pub configured : IsConfigured lower (lower (sha256 key)) grant settings.api_key_hashes
    pub identity : key_identity lower (prefix_text 8 (lower (sha256 key))) grant ≡ i

  -- The request has a token that decodes with the configured secret, to the identity's claims.
  pub record IsByToken (settings : AuthSettings) (headers : Headers) (i : AuthenticatedIdentity)
      : Type 0 where
    pub token : String
    pub claims : Claims
    pub given : CarriesToken lower token headers
    pub nonblank : nonempty token ≡ true
    pub configured : nonempty (or_else settings.jwt_secret_key "") ≡ true
    pub decoded : decode (or_else settings.jwt_secret_key "") token ≡ payload claims
    pub identity : token_identity lower claims ≡ ok i

  abbrev pub HasCredential : AuthSettings → Headers → AuthenticatedIdentity → Type 0
  HasCredential settings headers i = IsByKey settings headers i ⊎ IsByToken settings headers i

  payload-of :
      (d : Decoded) (i : AuthenticatedIdentity)
      → read_token lower d ≡ ok i
      → (c : Claims) × (d ≡ payload c) × (token_identity lower c ≡ ok i)
  unfolding read_token
  payload-of (payload c) i h = (c, refl, h)
  payload-of expired_signature i h = absurd (ground (arith, h))
  payload-of invalid_algorithm i h = absurd (ground (arith, h))
  payload-of (missing_claim e) i h = absurd (ground (arith, h))
  payload-of (other_error e) i h = absurd (ground (arith, h))

  module _ (settings : AuthSettings) where
    key-Gives : Gives (HasCredential settings) (
        authenticate_key lower sha256 "X-API-Key"
          (normalize_hashes lower settings.api_key_hashes []))
    unfolding authenticate_key
    key-Gives headers i h = elim (Result-cases (extract_raw_key lower "X-API-Key" headers)) [
      | inr (x, e) ↦ absurd (ground (arith, h, e))
      | inl (key, e) ↦
          elim (Option-cases
            (match_hash (lower (sha256 key)) (normalize_hashes lower settings.api_key_hashes []))) [
              | inl nothing ↦ absurd (ground (arith, h, e, nothing))
              | inr ((stored, grant), found) ↦
                  let (given, full) = extract_raw_key-CarriesKey lower "X-API-Key" headers key e in
                  let (same, configured) =
                    match_hash-IsConfigured lower (lower (sha256 key)) stored grant
                      settings.api_key_hashes found in
                  let identity : key_identity lower (prefix_text 8 stored) grant ≡ i =
                    ground (arith, h, e, found) in
                  inl (record {
                    key = key;
                    grant = grant;
                    given = given;
                    nonblank = full;
                    configured = configured;
                    identity =
                        subst (λ d. key_identity lower (prefix_text 8 d) grant ≡ i) same identity;
                  })
            ]
    ]

    token-Gives :
        nonempty (or_else settings.jwt_secret_key "") ≡ true
        → Gives
            (HasCredential settings)
            (authenticate_token lower (decode (or_else settings.jwt_secret_key "")))
    unfolding authenticate_token
    token-Gives configured headers i h = elim (Result-cases (extract_token lower headers)) [
      | inr (x, e) ↦ absurd (ground (arith, h, e))
      | inl (token, e) ↦ elim (Bool-cases (nonempty (or_else token ""))) [
        | inr empty ↦ absurd (ground (arith, h, e, empty))
        | inl there_is ↦
            let (c, decoded, identity) =
              payload-of (decode (or_else settings.jwt_secret_key "") (or_else token "")) i
                (ground (arith, h, e, there_is)) in
            inr (record {
              token = or_else token "";
              claims = c;
              given = extract_token-CarriesToken lower headers token e there_is;
              nonblank = there_is;
              configured = configured;
              decoded = decoded;
              identity = identity;
            })
      ]
    ]

    keys-Give :
        (hashes : Dict String KeyGrant)
        → settings.api_key_hashes ≡ hashes
        → All (Gives (HasCredential settings)) (key_authenticators lower sha256 hashes)
    unfolding key_authenticators
    keys-Give [] e = tt
    keys-Give (entry ∷ hashes) e = (
      subst
          (λ d.
            Gives (HasCredential settings)
              (authenticate_key lower sha256 "X-API-Key" (normalize_hashes lower d [])))
          e key-Gives,
      tt,
    )

    tokens-Give :
        (these : List Authenticator)
        → token_authenticators lower decode (or_else settings.jwt_secret_key "") ≡ ok these
        → All (Gives (HasCredential settings)) these
    unfolding token_authenticators require_secret
    tokens-Give these h =
        let secret = or_else settings.jwt_secret_key "" in
        elim (Bool-cases (nonempty secret)) [
          | inr empty ↦
              let e : [] ≡ these = ground (arith, h, empty) in
              subst (All (Gives (HasCredential settings))) e tt
          | inl there_is ↦ elim (Bool-cases (nonempty (strip_text secret))) [
            | inl good ↦
                let e : authenticate_token lower (decode secret) ∷ [] ≡ these =
                  ground (arith, h, there_is, good) in
                subst (All (Gives (HasCredential settings))) e (token-Gives there_is, tt)
            | inr blank ↦ absurd (ground (arith, h, there_is, blank))
          ]
        ]

    chosen :
        (these : List Authenticator) (a : Authenticator)
        → settings.environment ≡ "production"
        → choose lower settings.environment these ≡ ok a
        → combine these ≡ a
    unfolding choose
    chosen [] a live h =
        absurd
          (ground (arith, h, ap (λ s. s == "production") live, ==-self {A = String} "production"))
    chosen (b ∷ rest) a live h = ground (arith, h, ap (λ s. s == "test") live, production_differs)

    production-Gives :
        (a : Authenticator)
        → settings.environment ≡ "production"
        → get_authenticator lower sha256 decode settings ≡ ok a
        → Gives (HasCredential settings) a
    unfolding get_authenticator
    production-Gives a live h = elim (Bool-cases settings.api_auth_enabled) [
      | inr off ↦ absurd (
          ground
            (arith, h, off, ap (λ s. s == "production") live, ==-self {A = String} "production"))
      | inl on ↦
          elim (Result-cases
            (token_authenticators lower decode (or_else settings.jwt_secret_key ""))) [
              | inr (x, e) ↦ absurd (ground (arith, h, on, e))
              | inl (tokens, e) ↦
                  let keys = key_authenticators lower sha256 settings.api_key_hashes in
                  subst (Gives (HasCredential settings))
                    (chosen (keys ++ tokens) a live (ground (arith, h, on, e)))
                    (combine-Gives (HasCredential settings) (keys ++ tokens) (
                      All-append (Gives (HasCredential settings)) keys tokens
                        (keys-Give settings.api_key_hashes refl) (tokens-Give tokens e)))
            ]
    ]

  -- In the production environment, get_current_user establishes an identity only for a request that
  -- carries an API key, in X-API-Key or, where that is missing, in the Authorization header, whose
  -- digest the settings list, up to case and white space, and then the identity of an entry of that
  -- digest, or that carries a bearer token which decodes with the configured secret, and then the
  -- identity of its claims.
  pub production-HasCredential :
      (settings : AuthSettings) (headers : Headers) (i : AuthenticatedIdentity)
      → settings.environment ≡ "production"
      → get_current_user lower sha256 decode settings headers ≡ ok i
      → HasCredential settings headers i
  unfolding get_current_user
  production-HasCredential settings headers i live h =
      elim (Result-cases (get_authenticator lower sha256 decode settings)) [
        | inr (x, e) ↦ absurd (ground (arith, h, e))
        | inl (a, e) ↦ production-Gives settings a live e headers i (ground (arith, h, e))
      ]
