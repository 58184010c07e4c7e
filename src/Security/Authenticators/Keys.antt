-- ===== src/Security/Authenticators/Keys.antt =====
-- security/authenticators.py, `HashedAPIKeyAuthenticator`. Stored digests are ASCII, as
-- `hmac.compare_digest` wants them.
use enterprise_multi_agent_o.Base.{
  String, ◌<>◌, Bool, ◌||◌, Option, none, some, List, [], ◌∷◌, ◌==◌, if◌then◌else◌, string_eq,
  or_else,
}
use enterprise_multi_agent_o.Base.Dict.{Dict, insert}
use enterprise_multi_agent_o.Base.Text.{strip_text, split_once, prefix_text}
use enterprise_multi_agent_o.Core.Types.{nonempty}
use enterprise_multi_agent_o.Errors.{Result, ok, ◌>>=◌}
use enterprise_multi_agent_o.Security.Roles.{Role, AuthenticatedIdentity}
use enterprise_multi_agent_o.Security.Authenticators.{
  Headers, Authenticator, reject, parse_role, parse_roles, roles_or, identity_of, RolesClaim,
  role_names,
}

-- What a configured digest stands for.
pub data KeyGrant : Type 0 where
  named_role : String → KeyGrant
  described : (subject_id username : Option String) → (roles : Option RolesClaim) → KeyGrant

-- The first stored digest that is equal.
unfoldable pub match_hash : String → Dict String KeyGrant → Option (String × KeyGrant)
match_hash hash [] = none
match_hash hash ((stored, grant) ∷ hashes) =
    if hash == stored then some (stored, grant) else match_hash hash hashes

-- `str.lower`
module _ (lower : String → String) where
  -- `HashedAPIKeyAuthenticator.__init__`, whose comprehension keeps the last of equal keys.
  unfoldable pub normalize_hashes :
      Dict String KeyGrant → Dict String KeyGrant → Dict String KeyGrant
  unfolding insert strip_text
  normalize_hashes [] hashes = hashes
  normalize_hashes ((k, v) ∷ more) hashes =
      normalize_hashes more (insert (strip_text (lower k)) v hashes)

  abbrev is_api_key_scheme : String → Bool
  is_api_key_scheme word = lower word == "apikey" || lower word == "api-key"

  abbrev missing_key : Result String
  missing_key = reject "Missing API Key header." "MISSING_CREDENTIALS"

  abbrev unrecognized : Result String
  unrecognized =
      reject "Malformed or unrecognized Authorization scheme for API key." "AUTHENTICATION_FAILED"

  unfoldable pub nonblank : String → Result String
  unfolding strip_text nonempty
  nonblank s = if nonempty (strip_text s) then ok (strip_text s) else missing_key

  unfoldable pub key_of_parts : List String → Result String
  unfolding nonblank
  key_of_parts (scheme ∷ value ∷ []) =
      if is_api_key_scheme scheme then nonblank value else unrecognized
  key_of_parts (scheme ∷ []) =
      if is_api_key_scheme scheme
      then reject "Missing API Key credential in Authorization header." "MISSING_CREDENTIALS"
      else unrecognized
  key_of_parts _ = unrecognized

  -- `_extract_raw_key`, with the refusal of a request without a key.
  unfoldable pub extract_raw_key : (header_name : String) → Headers → Result String
  unfolding nonblank key_of_parts split_once strip_text
  extract_raw_key header_name headers = elim (headers header_name) [
    | some value ↦ nonblank value
    | none ↦ elim (headers "Authorization") [
      | some value ↦ key_of_parts (split_once (strip_text value))
      | none ↦ reject "Missing API Key credentials." "MISSING_CREDENTIALS"
    ]
  ]

  abbrev clean_all : List String → List String
  unfolding strip_text
  clean_all [] = []
  clean_all (r ∷ rs) = strip_text (lower r) ∷ clean_all rs

  unfoldable pub key_identity : (matched_prefix : String) → KeyGrant → AuthenticatedIdentity
  unfolding parse_role parse_roles strip_text identity_of clean_all
  key_identity matched (named_role name) =
      identity_of ("apikey_" <> matched) ("apikey_" <> strip_text (lower name))
        (or_else (parse_role (strip_text (lower name))) Role.viewer ∷ []) "api_key"
  key_identity matched (described subject_id username roles) =
      identity_of (or_else subject_id ("apikey_" <> matched))
        (or_else username ("apikey_user_" <> matched))
        (roles_or Role.viewer (parse_roles (clean_all (role_names roles "VIEWER")))) "api_key"

-- `str.lower`, and the digest of a key in hexadecimal.
-- `HashedAPIKeyAuthenticator.authenticate`, with normalized digests.
unfoldable pub authenticate_key :
    (lower sha256 : String → String) (header_name : String) → Dict String KeyGrant → Authenticator
unfolding extract_raw_key match_hash key_identity prefix_text
authenticate_key lower sha256 header_name hashes headers =
    extract_raw_key lower header_name headers >>= λ key.
    elim (match_hash (lower (sha256 key)) hashes) [
      | none ↦ reject "Invalid or unrecognized API Key." "AUTHENTICATION_FAILED"
      | some (stored, grant) ↦ ok (key_identity lower (prefix_text 8 stored) grant)
    ]
