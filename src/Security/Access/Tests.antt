-- ===== src/Security/Access/Tests.antt =====
-- A production environment with one API key, and an authenticator that refuses.
use enterprise_multi_agent_o.Base.{
  String, ◌≡◌, refl, true, none, some, [], ◌∷◌, ◌==◌, if◌then◌else◌, string_eq, nat_eq,
}
use enterprise_multi_agent_o.Base.Text.{strip_text, lstrip_text, rstrip_text, is_space, prefix_text}
use enterprise_multi_agent_o.Base.Dict.{insert}
use enterprise_multi_agent_o.Core.Types.{nonempty}
use enterprise_multi_agent_o.Errors.{ok}
use enterprise_multi_agent_o.Security.Roles.{AuthenticatedIdentity}
use enterprise_multi_agent_o.Security.Authenticators.{Headers}
use enterprise_multi_agent_o.Security.Authenticators.Keys.{
  named_role, normalize_hashes, authenticate_key, extract_raw_key, match_hash, key_identity,
}
use enterprise_multi_agent_o.Security.Authenticators.Tokens.{Decoded, Claims, payload}
use enterprise_multi_agent_o.Security.Access.{
  AuthSettings, get_authenticator, get_current_user, choose, combine, key_authenticators,
  token_authenticators,
}
use enterprise_multi_agent_o.Security.Access.Identities.{IsGranted}
use enterprise_multi_agent_o.Security.Access.Granted.{get_current_user-IsGranted}
use enterprise_multi_agent_o.Security.Access.Production.{HasCredential, production-HasCredential}

abbrev same : String → String
same s = s

abbrev claims : Claims
claims = record { sub = some "ann"; name = none; username = none; roles = none }

abbrev decode : String → String → Decoded
decode secret token = payload claims

abbrev headers : Headers
headers name = if name == "X-API-Key" then some "k1" else none

abbrev settings : AuthSettings
settings = record {
  environment = "production";
  api_auth_enabled = true;
  api_key_hashes = ("k1", named_role "operator") ∷ [];
  jwt_secret_key = none;
}

abbrev ann : AuthenticatedIdentity
unfolding key_identity
ann = key_identity same "k1" (named_role "operator")

ann-let_in : get_current_user same same decode settings headers ≡ ok ann
unfolding get_current_user get_authenticator token_authenticators key_authenticators choose combine
    authenticate_key extract_raw_key match_hash normalize_hashes insert nonempty string_eq
    strip_text lstrip_text rstrip_text is_space prefix_text nat_eq ann
ann-let_in = refl

get_current_user-IsGranted_example : IsGranted ann
get_current_user-IsGranted_example =
    get_current_user-IsGranted same same decode settings headers ann ann-let_in

production-HasCredential_example : HasCredential same same decode settings headers ann
production-HasCredential_example =
    production-HasCredential same same decode settings headers ann refl ann-let_in
