-- ===== src/Security/Access/Granted.antt =====
-- api/dependencies.py and security/authenticators.py: the permissions of the current user.
use enterprise_multi_agent_o.Base.{
  String, ◌≡◌, inl, inr, List, [], ◌∷◌, ◌++◌, ◌==◌, string_eq, or_else, arith, subst, Bool-cases,
}
use enterprise_multi_agent_o.Base.Dict.{Dict}
use enterprise_multi_agent_o.Base.Lists.{All, All-snoc}
use enterprise_multi_agent_o.Base.Text.{strip_text}
use enterprise_multi_agent_o.Core.Types.{nonempty}
use enterprise_multi_agent_o.Errors.{ok, Result-cases}
use enterprise_multi_agent_o.Security.Roles.{AuthenticatedIdentity}
use enterprise_multi_agent_o.Security.Authenticators.{Headers, Authenticator}
use enterprise_multi_agent_o.Security.Authenticators.Keys.{KeyGrant}
use enterprise_multi_agent_o.Security.Authenticators.Tokens.{
  Decoded, authenticate_token, require_secret,
}
use enterprise_multi_agent_o.Security.Authenticators.Chain.{new_bypass, bypass_identity}
use enterprise_multi_agent_o.Security.Authenticators.Composite.{All-append}
use enterprise_multi_agent_o.Security.Authenticators.Testing.{authenticate_test}
use enterprise_multi_agent_o.Security.Access.Combined.{combine-Gives}
use enterprise_multi_agent_o.Security.Access.{
  AuthSettings, get_authenticator, get_current_user, choose, combine, key_authenticators,
  token_authenticators,
}
use enterprise_multi_agent_o.Security.Access.Identities.{
  IsGranted, Grants, authenticate_key-Grants, authenticate_token-Grants, authenticate_test-Grants,
  bypass-Grants,
}

module _ (lower sha256 : String → String) (decode : (secret_key : String) → String → Decoded) where
  key_authenticators-Grants :
      (hashes : Dict String KeyGrant) → All Grants (key_authenticators lower sha256 hashes)
  unfolding key_authenticators
  key_authenticators-Grants [] = tt
  key_authenticators-Grants (entry ∷ hashes) = (authenticate_key-Grants lower sha256 _ _, tt)

  token_authenticators-Grants :
      (secret : String) (these : List Authenticator)
      → token_authenticators lower decode secret ≡ ok these
      → All Grants these
  unfolding token_authenticators require_secret
  token_authenticators-Grants secret these h = elim (Bool-cases (nonempty secret)) [
    | inr empty ↦ let e : [] ≡ these = ground (arith, h, empty) in subst (All Grants) e tt
    | inl there_is ↦ elim (Bool-cases (nonempty (strip_text secret))) [
      | inl good ↦
          let e : authenticate_token lower (decode secret) ∷ [] ≡ these =
            ground (arith, h, there_is, good) in
          subst (All Grants) e (authenticate_token-Grants lower sha256 (decode secret), tt)
      | inr blank ↦ absurd (ground (arith, h, there_is, blank))
    ]
  ]

  choose-Grants :
      (environment : String) (these : List Authenticator) (a : Authenticator)
      → All Grants these
      → choose lower environment these ≡ ok a
      → Grants a
  unfolding choose
  choose-Grants environment [] a g h = elim (Bool-cases (environment == "production")) [
    | inl live ↦ absurd (ground (arith, h, live))
    | inr other_one ↦
        let e : authenticate_test lower ≡ a = ground (arith, h, other_one) in
        subst Grants e (authenticate_test-Grants lower sha256)
  ]
  choose-Grants environment (b ∷ rest) a g h = elim (Bool-cases (environment == "test")) [
    | inl testing ↦
        let e : combine ((b ∷ rest) ++ authenticate_test lower ∷ []) ≡ a =
          ground (arith, h, testing) in
        subst Grants e (
          combine-Gives (λ headers i. IsGranted i) ((b ∷ rest) ++ authenticate_test lower ∷ [])
            (All-snoc Grants (b ∷ rest) (authenticate_test lower) g
              (authenticate_test-Grants lower sha256)))
    | inr other_one ↦
        let e : combine (b ∷ rest) ≡ a = ground (arith, h, other_one) in
        subst Grants e (combine-Gives (λ headers i. IsGranted i) (b ∷ rest) g)
  ]

  get_authenticator-Grants :
      (settings : AuthSettings) (a : Authenticator)
      → get_authenticator lower sha256 decode settings ≡ ok a
      → Grants a
  unfolding get_authenticator new_bypass
  get_authenticator-Grants settings a h = elim (Bool-cases settings.api_auth_enabled) [
    | inl on ↦
        elim (Result-cases
          (token_authenticators lower decode (or_else settings.jwt_secret_key ""))) [
            | inr (x, e) ↦ absurd (ground (arith, h, on, e))
            | inl (tokens, e) ↦
                choose-Grants settings.environment
                  (key_authenticators lower sha256 settings.api_key_hashes ++ tokens) a
                  (All-append Grants (key_authenticators lower sha256 settings.api_key_hashes)
                    tokens (key_authenticators-Grants settings.api_key_hashes)
                    (token_authenticators-Grants (or_else settings.jwt_secret_key "") tokens e))
                  (ground (arith, h, on, e))
          ]
    | inr off ↦ elim (Bool-cases (settings.environment == "production")) [
      | inl live ↦ absurd (ground (arith, h, off, live))
      | inr other_one ↦
          let e : (λ headers. ok bypass_identity) ≡ a = ground (arith, h, off, other_one) in
          subst Grants e bypass-Grants
    ]
  ]

  -- Whatever the settings, an identity that get_current_user establishes is authenticated, has a
  -- role, and has exactly the permissions of its roles.
  pub get_current_user-IsGranted :
      (settings : AuthSettings) (headers : Headers) (i : AuthenticatedIdentity)
      → get_current_user lower sha256 decode settings headers ≡ ok i
      → IsGranted i
  unfolding get_current_user
  get_current_user-IsGranted settings headers i h =
      elim (Result-cases (get_authenticator lower sha256 decode settings)) [
        | inr (x, e) ↦ absurd (ground (arith, h, e))
        | inl (a, e) ↦ get_authenticator-Grants settings a e headers i (ground (arith, h, e))
      ]
