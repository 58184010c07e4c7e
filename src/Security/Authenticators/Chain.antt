-- ===== src/Security/Authenticators/Chain.antt =====
-- security/authenticators.py, `DevelopmentBypassAuthenticator` and `CompositeAuthenticator`.
use enterprise_multi_agent_o.Base.{String, List, [], ◌∷◌, ◌==◌, if◌then◌else◌, string_eq}
use enterprise_multi_agent_o.Errors.{
  Exception, orchestrator_error, Result, ok, raises, authentication_error, is_authentication_error,
  configuration_error,
}
use enterprise_multi_agent_o.Security.Roles.{Role, AuthenticatedIdentity}
use enterprise_multi_agent_o.Security.Authenticators.{Authenticator, reject, identity_of}

unfoldable pub bypass_identity : AuthenticatedIdentity
unfolding identity_of
bypass_identity =
    identity_of "dev-admin" "development_administrator" (Role.admin ∷ []) "development_bypass"

-- `DevelopmentBypassAuthenticator`: its constructor, then its `authenticate`.
unfoldable pub new_bypass : (environment : String) → Result Authenticator
unfolding bypass_identity
new_bypass environment =
    if environment == "production"
    then raises (
        orchestrator_error (
          configuration_error
            "DevelopmentBypassAuthenticator cannot be used in a production environment."
            "CONFIGURATION_ERROR"))
    else ok (λ headers. ok bypass_identity)

-- The loop of `CompositeAuthenticator.authenticate`.
unfoldable pub try_all : List Authenticator → (last_error : Exception) → Authenticator
try_all [] last_error headers = raises last_error
try_all (a ∷ rest) last_error headers = elim (a headers) [
  | ok identity ↦ if identity.is_authenticated then ok identity else try_all rest last_error headers
  | raises (orchestrator_error e) ↦
      if is_authentication_error e.kind
      then try_all rest
          (if e.code == "MISSING_CREDENTIALS" then last_error else orchestrator_error e) headers
      else raises (orchestrator_error e)
  | raises x ↦ raises x
]

unfoldable pub authenticate_composite : List Authenticator → Authenticator
unfolding try_all
authenticate_composite [] headers = reject "No authenticators configured." "CONFIGURATION_ERROR"
authenticate_composite (a ∷ rest) headers =
    try_all (a ∷ rest)
      (orchestrator_error
        (authentication_error "Missing authentication credentials." "MISSING_CREDENTIALS"))
      headers
