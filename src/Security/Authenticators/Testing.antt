-- ===== src/Security/Authenticators/Testing.antt =====
-- security/authenticators.py, `TestAuthenticator`, and the `str` methods that it calls.
use Prim.Native.Char.{code}
use enterprise_multi_agent_o.Base.{
  ℕ, zero, suc, String, ◌<>◌, Bool, true, false, ◌&&◌, ◌||◌, Option, none, some, List, [], ◌∷◌,
  ◌==◌, if◌then◌else◌, string_eq, nat_eq, or_else,
}
use enterprise_multi_agent_o.Base.Text.{strip_text}
use enterprise_multi_agent_o.Core.Types.{nonempty}
use enterprise_multi_agent_o.Errors.{ok}
use enterprise_multi_agent_o.Security.Roles.{Role, role_value, AuthenticatedIdentity}
use enterprise_multi_agent_o.Security.Authenticators.{
  Authenticator, parse_roles, roles_or, identity_of,
}

-- `s.startswith(prefix)`
unfoldable pub starts_with : (prefix s : String) → Bool
starts_with String.[] s = true
starts_with (String.◌∷◌ c prefix) String.[] = false
starts_with (String.◌∷◌ c prefix) (String.◌∷◌ d s) = code c == code d && starts_with prefix s

-- `s.replace(old, new)` for an `old` of `suc n` characters, `skip` characters into an occurrence.
unfoldable pub replace_from : (n : ℕ) (old new : String) (skip : ℕ) → String → String
unfolding starts_with
replace_from n old new skip String.[] = String.[]
replace_from n old new (suc skip) (String.◌∷◌ c s) = replace_from n old new skip s
replace_from n old new zero (String.◌∷◌ c s) =
    let after = replace_from n old new n s in
    let on = replace_from n old new zero s in
    if starts_with old (String.◌∷◌ c s) then new <> after else String.◌∷◌ c on

-- The text after the first space: `s.split(" ", 1)[1]`.
unfoldable pub after_space : String → String
after_space String.[] = String.[]
after_space (String.◌∷◌ c s) = let rest = after_space s in if code c == 32 then s else rest

-- `s.split(",")`
abbrev put_first : (c : String) → List String → List String
put_first c [] = c ∷ []
put_first c (part ∷ parts) = (c <> part) ∷ parts

unfoldable pub split_commas : String → List String
split_commas String.[] = "" ∷ []
split_commas (String.◌∷◌ c s) =
    let parts = split_commas s in
    if code c == 44 then "" ∷ parts else put_first (String.◌∷◌ c String.[]) parts

-- TEST_KEYS
unfoldable pub test_key : String → Option Role
test_key key =
    if key == "test-key-admin"
    then some Role.admin
    else if key == "test-key-operator"
    then some Role.operator
    else if key == "test-key-reviewer"
    then some Role.reviewer
    else if key == "test-key-viewer"
    then some Role.viewer
    else none

-- `if key:` or the key from the Authorization header.
unfoldable pub key_of : (api_key : Option String) (auth_header : String) → Option String
unfolding nonempty starts_with replace_from after_space
key_of api_key auth_header =
    if nonempty (or_else api_key "")
    then api_key
    else if starts_with "Bearer test-token-" auth_header
    then some (replace_from 17 "Bearer test-token-" "test-key-" 0 auth_header)
    else if starts_with "ApiKey " auth_header
    then some (after_space auth_header)
    else api_key

unfoldable pub fallback_identity : AuthenticatedIdentity
unfolding identity_of
fallback_identity = identity_of "test-runner" "test_runner" (Role.admin ∷ []) "test_authenticator"

-- `str.lower`
module _ (lower : String → String) where
  abbrev clean_all : List String → List String
  unfolding strip_text
  clean_all [] = []
  clean_all (r ∷ rs) = lower (strip_text r) ∷ clean_all rs

  -- 1. The headers that name a subject and roles.
  unfoldable pub named_identity : (subject roles_raw : String) → AuthenticatedIdentity
  unfolding nonempty split_commas parse_roles clean_all identity_of
  named_identity subject roles_raw =
      identity_of (if nonempty subject then subject else "test-runner")
        (if nonempty subject then subject else "test_runner")
        (roles_or Role.admin
          (if nonempty roles_raw then parse_roles (clean_all (split_commas roles_raw)) else []))
        "test_authenticator"

  -- 2. and 3. A test key, or the identity of last resort.
  unfoldable pub keyed_identity : Option String → AuthenticatedIdentity
  unfolding test_key nonempty identity_of fallback_identity
  keyed_identity key =
      if nonempty (or_else key "")
      then (elim (test_key (or_else key "")) [
        | none ↦ fallback_identity
        | some role ↦
            identity_of ("test_" <> role_value role) ("test_" <> role_value role <> "_user")
              (role ∷ []) "test_authenticator"
      ])
      else fallback_identity

  unfoldable pub authenticate_test : Authenticator
  unfolding nonempty named_identity keyed_identity key_of
  authenticate_test headers =
      let subject = or_else (headers "X-Test-Subject") "" in
      let roles_raw = or_else (headers "X-Test-Roles") "" in
      if nonempty subject || nonempty roles_raw
      then ok (named_identity subject roles_raw)
      else ok (keyed_identity (key_of (headers "X-API-Key") (or_else (headers "Authorization") "")))
