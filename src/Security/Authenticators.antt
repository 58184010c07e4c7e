-- ===== src/Security/Authenticators.antt =====
-- security/authenticators.py: the ways to establish an identity from the headers of a request. This
-- module has what they share.
pub mod Keys
pub mod Tokens
pub mod Chain
pub mod Composite
pub mod Testing
use enterprise_multi_agent_o.Base.{
  String, ◌<>◌, Bool, true, false, not, ◌||◌, Option, none, some, List, [], ◌∷◌, ◌==◌,
  if◌then◌else◌, string_eq, or_else,
}
use enterprise_multi_agent_o.Base.Dict.{Dict, insert}
use enterprise_multi_agent_o.Base.Text.{strip_text, split_once, prefix_text}
use enterprise_multi_agent_o.Core.Types.{nonempty, text_or}
use enterprise_multi_agent_o.Errors.{
  Exception, orchestrator_error, Result, ok, raises, ◌>>=◌, authentication_error,
  is_authentication_error, configuration_error,
}
use enterprise_multi_agent_o.Security.Roles.{
  Role, Permission, AuthenticatedIdentity, role_permissions, granted_by,
}

-- `request.headers.get`
abbrev pub Headers : Type 0
Headers = String → Option String

-- `authenticate` of an authenticator.
abbrev pub Authenticator : Type 0
Authenticator = Headers → Result AuthenticatedIdentity

abbrev pub reject : {A : Type 0} → (message code : String) → Result A
reject message code = raises (orchestrator_error (authentication_error message code))

-- `Role(value)`
unfoldable pub parse_role : String → Option Role
parse_role value =
    if value == "admin"
    then some Role.admin
    else if value == "operator"
    then some Role.operator
    else if value == "reviewer"
    then some Role.reviewer
    else if value == "viewer"
    then some Role.viewer
    else none

-- The values that name a role; the others are passed over.
unfoldable pub parse_roles : List String → List Role
unfolding parse_role
parse_roles [] = []
parse_roles (value ∷ values) = elim (parse_role value) [
  | none ↦ parse_roles values
  | some r ↦ r ∷ parse_roles values
]

-- `if not roles: roles.add(default)`
abbrev pub roles_or : Role → List Role → List Role
roles_or default [] = default ∷ []
roles_or default (r ∷ roles) = r ∷ roles

-- The identity with the union of its roles' permissions.
unfoldable pub identity_of :
    (subject_id username : String) → List Role → (auth_method : String) → AuthenticatedIdentity
unfolding granted_by
identity_of subject_id username roles auth_method = record {
  subject_id = subject_id;
  username = username;
  roles = roles;
  permissions = granted_by roles;
  auth_method = auth_method;
  is_authenticated = true;
}

-- "roles" in a configured identity or in a token: one text, or a list.
pub data RolesClaim : Type 0 where
  one : String → RolesClaim
  several : List String → RolesClaim

abbrev pub role_names : Option RolesClaim → (default : String) → List String
role_names none default = default ∷ []
role_names (some (one r)) default = r ∷ []
role_names (some (several rs)) default = rs
