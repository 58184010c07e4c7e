-- ===== src/Security/Access.antt =====
-- api/dependencies.py, `get_authenticator` and `get_current_user`.
pub mod Combined
pub mod Identities
pub mod Granted
pub mod Credentials
pub mod Production
mod Tests
use enterprise_multi_agent_o.Base.{
  String, Bool, true, false, not, Option, none, some, List, [], ◌∷◌, ◌++◌, ◌==◌, if◌then◌else◌,
  string_eq, or_else,
}
use enterprise_multi_agent_o.Base.Dict.{Dict}
use enterprise_multi_agent_o.Core.Types.{nonempty}
use enterprise_multi_agent_o.Errors.{
  orchestrator_error, Result, ok, raises, ◌>>=◌, configuration_error,
}
use enterprise_multi_agent_o.Security.Roles.{AuthenticatedIdentity}
use enterprise_multi_agent_o.Security.Authenticators.{Headers, Authenticator}
use enterprise_multi_agent_o.Security.Authenticators.Keys.{
  KeyGrant, normalize_hashes, authenticate_key,
}
use enterprise_multi_agent_o.Security.Authenticators.Tokens.{
  Decoded, authenticate_token, require_secret,
}
use enterprise_multi_agent_o.Security.Authenticators.Chain.{new_bypass, authenticate_composite}
use enterprise_multi_agent_o.Security.Authenticators.Testing.{authenticate_test}

-- The settings that decide on authentication (config/settings.py).
pub record AuthSettings : Type 0 where
  pub environment : String
  pub api_auth_enabled : Bool
  pub api_key_hashes : Dict String KeyGrant
  pub jwt_secret_key : Option String

abbrev configuration : {A : Type 0} → String → Result A
unfolding configuration_error
configuration message =
    raises (orchestrator_error (configuration_error message "CONFIGURATION_ERROR"))

-- The composite, or the one authenticator.
unfoldable pub combine : List Authenticator → Authenticator
unfolding authenticate_composite
combine (a ∷ []) = a
combine these = authenticate_composite these

-- `str.lower`, and the digest of a key.
module _ (lower sha256 : String → String) where
  unfoldable pub key_authenticators : Dict String KeyGrant → List Authenticator
  unfolding authenticate_key normalize_hashes
  key_authenticators [] = []
  key_authenticators (entry ∷ hashes) =
      authenticate_key lower sha256 "X-API-Key" (normalize_hashes lower (entry ∷ hashes) []) ∷ []

-- `jwt.decode` with a secret key.
module _ (lower : String → String) (decode : (secret_key : String) → String → Decoded) where
  unfoldable pub token_authenticators : (jwt_secret_key : String) → Result (List Authenticator)
  unfolding nonempty require_secret authenticate_token
  token_authenticators secret_key =
      if nonempty secret_key
      then require_secret secret_key (authenticate_token lower (decode secret_key) ∷ [])
      else ok []

module _ (lower : String → String) where
  -- The last two steps, with the authenticators of keys and tokens.
  unfoldable pub choose : (environment : String) → List Authenticator → Result Authenticator
  unfolding combine authenticate_test configuration
  choose environment [] =
      if environment == "production"
      then configuration
          "Production environment requires API_KEY_HASHES or JWT_SECRET_KEY to be configured."
      else ok (authenticate_test lower)
  choose environment (a ∷ rest) =
      if environment == "test"
      then ok (combine ((a ∷ rest) ++ authenticate_test lower ∷ []))
      else ok (combine (a ∷ rest))

module _ (lower sha256 : String → String) (decode : (secret_key : String) → String → Decoded) where
  unfoldable pub get_authenticator : AuthSettings → Result Authenticator
  unfolding configuration new_bypass key_authenticators token_authenticators choose
  get_authenticator settings =
      if settings.api_auth_enabled
      then (token_authenticators lower decode (or_else settings.jwt_secret_key "") >>= λ tokens.
          choose lower settings.environment
            (key_authenticators lower sha256 settings.api_key_hashes ++ tokens))
      else if settings.environment == "production"
      then configuration "Authentication cannot be disabled in a production environment."
      else new_bypass settings.environment

  -- FastAPI resolves the authenticator before it asks it.
  unfoldable pub get_current_user : AuthSettings → Headers → Result AuthenticatedIdentity
  unfolding get_authenticator
  get_current_user settings headers =
      get_authenticator settings >>= λ authenticator. authenticator headers
