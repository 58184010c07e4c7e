-- ===== src/Security/Roles.antt =====
-- security/models.py and security/authorizers.py: roles, permissions, identities, and the
-- dependencies that require them. A set of permissions is its membership test.
use enterprise_multi_agent_o.Base.{String, ◌<>◌, Bool, true, false, ◌||◌, List, if◌then◌else◌}
use enterprise_multi_agent_o.Base.Lists.{any}
use enterprise_multi_agent_o.Errors.{orchestrator_error, Result, ok, raises, authorization_error}

pub data Role : Type 0 where
  admin operator reviewer viewer : Role

pub data Permission : Type 0 where
  runs_create runs_read runs_cancel runs_delete runs_stream : Permission
  hitl_read hitl_approve hitl_reject hitl_modify metrics_read audit_read : Permission

abbrev pub permission_value : Permission → String
permission_value Permission.runs_create = "runs:create"
permission_value Permission.runs_read = "runs:read"
permission_value Permission.runs_cancel = "runs:cancel"
permission_value Permission.runs_delete = "runs:delete"
permission_value Permission.runs_stream = "runs:stream"
permission_value Permission.hitl_read = "hitl:read"
permission_value Permission.hitl_approve = "hitl:approve"
permission_value Permission.hitl_reject = "hitl:reject"
permission_value Permission.hitl_modify = "hitl:modify"
permission_value Permission.metrics_read = "metrics:read"
permission_value Permission.audit_read = "audit:read"

abbrev pub role_value : Role → String
role_value Role.admin = "admin"
role_value Role.operator = "operator"
role_value Role.reviewer = "reviewer"
role_value Role.viewer = "viewer"

-- ROLE_PERMISSIONS
unfoldable pub role_permissions : Role → Permission → Bool
role_permissions Role.admin _ = true
role_permissions Role.operator Permission.runs_delete = false
role_permissions Role.operator Permission.audit_read = false
role_permissions Role.operator _ = true
role_permissions Role.reviewer Permission.runs_read = true
role_permissions Role.reviewer Permission.runs_stream = true
role_permissions Role.reviewer Permission.hitl_read = true
role_permissions Role.reviewer Permission.hitl_approve = true
role_permissions Role.reviewer Permission.hitl_reject = true
role_permissions Role.reviewer Permission.hitl_modify = true
role_permissions Role.reviewer _ = false
role_permissions Role.viewer Permission.runs_read = true
role_permissions Role.viewer Permission.runs_stream = true
role_permissions Role.viewer Permission.hitl_read = true
role_permissions Role.viewer Permission.metrics_read = true
role_permissions Role.viewer _ = false

-- The claims under `metadata` are left out.
pub record AuthenticatedIdentity : Type 0 where
  pub subject_id : String
  pub username : String
  pub roles : List Role
  pub permissions : Permission → Bool
  pub auth_method : String
  pub is_authenticated : Bool

-- Whether one of the roles has the permission: the loop of `has_permission`.
unfoldable pub granted_by : List Role → Permission → Bool
unfolding role_permissions
granted_by roles p = any (λ r. role_permissions r p) roles

unfoldable pub has_permission : Permission → AuthenticatedIdentity → Bool
unfolding granted_by
has_permission p identity = identity.permissions p || granted_by identity.roles p

abbrev same_role : Role → Role → Bool
same_role Role.admin Role.admin = true
same_role Role.operator Role.operator = true
same_role Role.reviewer Role.reviewer = true
same_role Role.viewer Role.viewer = true
same_role _ _ = false

unfoldable pub has_role : Role → AuthenticatedIdentity → Bool
has_role role identity = any (same_role role) identity.roles

-- `_dependency` of each, for the identity that `get_current_user` has established.
unfoldable pub require_authenticated_user : AuthenticatedIdentity → Result AuthenticatedIdentity
require_authenticated_user identity =
    if identity.is_authenticated
    then ok identity
    else raises (orchestrator_error (authorization_error "Forbidden: Unverified principal."))

unfoldable pub require_permission :
    Permission → AuthenticatedIdentity → Result AuthenticatedIdentity
unfolding has_permission
require_permission p identity =
    if has_permission p identity
    then ok identity
    else raises (
        orchestrator_error (
          authorization_error
            ("Forbidden: Principal lacks required permission '" <> permission_value p <> "'.")))

unfoldable pub require_role : Role → AuthenticatedIdentity → Result AuthenticatedIdentity
unfolding has_role
require_role role identity =
    if has_role role identity
    then ok identity
    else raises (
        orchestrator_error (
          authorization_error
            ("Forbidden: Principal lacks required role '" <> role_value role <> "'.")))
