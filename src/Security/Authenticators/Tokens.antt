-- ===== src/Security/Authenticators/Tokens.antt =====
-- security/authenticators.py, `BearerTokenAuthenticator`.
use enterprise_multi_agent_o.Base.{
  String, ◌<>◌, Option, none, some, List, [], ◌∷◌, ◌==◌, if◌then◌else◌, string_eq, or_else,
}
use enterprise_multi_agent_o.Base.Text.{strip_text, split_once}
use enterprise_multi_agent_o.Core.Types.{nonempty, text_or}
use enterprise_multi_agent_o.Errors.{
  orchestrator_error, Result, ok, raises, ◌>>=◌, configuration_error,
}
use enterprise_multi_agent_o.Security.Roles.{Role, AuthenticatedIdentity}
use enterprise_multi_agent_o.Security.Authenticators.{
  Headers, Authenticator, reject, parse_roles, roles_or, identity_of, RolesClaim, role_names,
}

-- The payload of a token, as far as it is read.
pub record Claims : Type 0 where
  pub sub : Option String
  pub name : Option String
  pub username : Option String
  pub roles : Option RolesClaim

-- What `jwt.decode` gives: the payload, or one of the exceptions that are told apart.
pub data Decoded : Type 0 where
  payload : Claims → Decoded
  expired_signature invalid_algorithm : Decoded
  missing_claim other_error : String → Decoded

-- `str.lower`
module _ (lower : String → String) where
  abbrev lower_all : List String → List String
  lower_all [] = []
  lower_all (r ∷ rs) = lower r ∷ lower_all rs

  unfoldable pub token_of_parts : List String → Result (Option String)
  unfolding strip_text
  token_of_parts (scheme ∷ value ∷ []) =
      if lower scheme == "bearer" then ok (some (strip_text value)) else ok none
  token_of_parts (scheme ∷ []) =
      if lower scheme == "bearer"
      then reject "Missing Bearer token credential in Authorization header." "MISSING_CREDENTIALS"
      else ok none
  token_of_parts _ = ok none

  unfoldable pub extract_token : Headers → Result (Option String)
  unfolding token_of_parts split_once strip_text
  extract_token headers =
      token_of_parts (split_once (strip_text (or_else (headers "Authorization") "")))

  -- The part of `authenticate` that reads the payload.
  unfoldable pub token_identity : Claims → Result AuthenticatedIdentity
  unfolding parse_roles text_or nonempty identity_of
  token_identity claims =
      let subject = text_or claims.sub "" in
      if nonempty subject
      then ok (
          identity_of subject (text_or claims.name (text_or claims.username subject))
            (roles_or Role.viewer (parse_roles (lower_all (role_names claims.roles "viewer"))))
            "bearer_token")
      else reject "Bearer token missing 'sub' claim." "INVALID_CLAIMS"

  unfoldable pub read_token : Decoded → Result AuthenticatedIdentity
  unfolding token_identity
  read_token (payload claims) = token_identity claims
  read_token expired_signature = reject "Bearer token has expired." "TOKEN_EXPIRED"
  read_token invalid_algorithm =
      reject "Unsupported or unallowed token signing algorithm." "INVALID_TOKEN"
  read_token (missing_claim e) =
      reject ("Bearer token missing required claim: " <> e) "INVALID_CLAIMS"
  read_token (other_error e) = reject ("Invalid Bearer token: " <> e) "INVALID_TOKEN"

  -- `BearerTokenAuthenticator.authenticate`. `decode` is `jwt.decode` with the key, the allowed
  -- algorithms and the required claims.
  unfoldable pub authenticate_token : (decode : String → Decoded) → Authenticator
  unfolding extract_token nonempty read_token
  authenticate_token decode headers = extract_token headers >>= λ token.
      if nonempty (or_else token "")
      then read_token (decode (or_else token ""))
      else reject "Missing Bearer token in Authorization header." "MISSING_CREDENTIALS"

-- `BearerTokenAuthenticator.__init__`, which the authenticator of a blank key does not leave.
unfoldable pub require_secret : {A : Type 0} → (secret_key : String) → A → Result A
unfolding nonempty strip_text
require_secret secret_key authenticator =
    if nonempty (strip_text secret_key)
    then ok authenticator
    else raises (
        orchestrator_error (
          configuration_error "BearerTokenAuthenticator requires a non-empty JWT secret key."
            "CONFIGURATION_ERROR"))
