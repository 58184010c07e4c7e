-- ===== src/Security/Access/Identities.antt =====
-- security/authenticators.py: the roles and permissions of the identities of each authenticator.
use enterprise_multi_agent_o.Base.{
  String, ◌≡◌, refl, ◌<>◌, inl, inr, Bool, true, false, ◌||◌, Option, none, some, List, [], ◌∷◌,
  if◌then◌else◌, string_eq, or_else, arith, subst, sym, ◌∙◌, Bool-cases, Option-cases,
}
use enterprise_multi_agent_o.Base.Dict.{Dict}
use enterprise_multi_agent_o.Base.Lists.{In, here, there}
use enterprise_multi_agent_o.Base.Text.{prefix_text}
use enterprise_multi_agent_o.Core.Types.{nonempty, truthy}
use enterprise_multi_agent_o.Errors.{Result, ok, Result-cases}
use enterprise_multi_agent_o.Security.Roles.{
  Role, role_value, Permission, AuthenticatedIdentity, role_permissions, granted_by, has_permission,
}
use enterprise_multi_agent_o.Security.Authenticators.{Authenticator, reject, roles_or, identity_of}
use enterprise_multi_agent_o.Security.Authenticators.Keys.{
  KeyGrant, named_role, described, authenticate_key, extract_raw_key, match_hash, key_identity,
}
use enterprise_multi_agent_o.Security.Authenticators.Tokens.{
  Decoded, Claims, payload, expired_signature, invalid_algorithm, missing_claim, other_error,
  authenticate_token, extract_token, read_token, token_identity,
}
use enterprise_multi_agent_o.Security.Authenticators.Chain.{bypass_identity}
use enterprise_multi_agent_o.Security.Authenticators.Composite.{Gives}
use enterprise_multi_agent_o.Security.Authenticators.Testing.{
  authenticate_test, named_identity, keyed_identity, fallback_identity, key_of, test_key,
}

-- One of the roles has the permission, by the table of the roles.
abbrev pub Allows : List Role → Permission → Type 0
Allows roles p = (r : Role) × In r roles × (role_permissions r p ≡ true)

-- An authenticated identity with a role. It has a permission exactly if one of its roles has it.
pub record IsGranted (i : AuthenticatedIdentity) : Type 0 where
  pub authenticated : i.is_authenticated ≡ true
  pub has_roles : truthy i.roles ≡ true
  pub no_more : (p : Permission) → has_permission p i ≡ true → Allows i.roles p
  pub no_less : (p : Permission) → Allows i.roles p → has_permission p i ≡ true

abbrev pub Grants : Authenticator → Type 0
Grants = Gives (λ headers i. IsGranted i)

granted_by-Allows :
    (roles : List Role) (p : Permission) → granted_by roles p ≡ true → Allows roles p
unfolding granted_by
granted_by-Allows [] p h = absurd (ground (arith, h))
granted_by-Allows (r ∷ roles) p h = elim (Bool-cases (role_permissions r p)) [
  | inl yes_it ↦ (r, here refl, yes_it)
  | inr not_it ↦
      let (r', m, allowed) = granted_by-Allows roles p (ground (arith, h, not_it)) in
      (r', there m, allowed)
]

Allows-granted_by :
    (roles : List Role) (p : Permission) (r : Role)
    → In r roles
    → role_permissions r p ≡ true
    → granted_by roles p ≡ true
unfolding granted_by
Allows-granted_by [] p r m h = elim m [ ]
Allows-granted_by (q ∷ roles) p r (here e) h =
    ground (arith, subst (λ r. role_permissions r p ≡ true) e h)
Allows-granted_by (q ∷ roles) p r (there m) h = ground (arith, Allows-granted_by roles p r m h)

same_twice : (b : Bool) → b || b ≡ b
same_twice true = refl
same_twice false = refl

identity_of-IsGranted :
    (subject_id username : String) (roles : List Role) (auth_method : String)
    → truthy roles ≡ true
    → IsGranted (identity_of subject_id username roles auth_method)
unfolding identity_of has_permission
identity_of-IsGranted subject_id username roles auth_method h = record {
  authenticated = refl;
  has_roles = h;
  no_more = λ p given. granted_by-Allows roles p (sym (same_twice (granted_by roles p)) ∙ given);
  no_less = λ p allowed.
      same_twice (granted_by roles p) ∙ Allows-granted_by roles p allowed.0 allowed.1 allowed.2;
}

roles_or-some : (r : Role) (roles : List Role) → truthy (roles_or r roles) ≡ true
roles_or-some r [] = refl
roles_or-some r (_ ∷ _) = refl

ok-IsGranted :
    {i j : AuthenticatedIdentity}
    → IsGranted i
    → ◌≡◌ {A = Result AuthenticatedIdentity} (ok i) (ok j)
    → IsGranted j
ok-IsGranted {i} {j} g e = subst IsGranted (ground (arith, e)) g

fallback-IsGranted : IsGranted fallback_identity
unfolding fallback_identity
fallback-IsGranted = identity_of-IsGranted _ _ _ _ refl

either-IsGranted :
    (b : Bool) (j k : AuthenticatedIdentity)
    → IsGranted j
    → IsGranted k
    → IsGranted (if b then j else k)
either-IsGranted true j k g h = g
either-IsGranted false j k g h = h

if_ok-IsGranted :
    (b : Bool) (j i : AuthenticatedIdentity) (message code : String)
    → IsGranted j
    → (if b then ok j else reject message code) ≡ ok i
    → IsGranted i
if_ok-IsGranted true j i message code g h = ok-IsGranted g h
if_ok-IsGranted false j i message code g h = absurd (ground (arith, h))

both_ok-IsGranted :
    (b : Bool) (j k i : AuthenticatedIdentity)
    → IsGranted j
    → IsGranted k
    → (if b then ok j else ok k) ≡ ok i
    → IsGranted i
both_ok-IsGranted true j k i g h e = ok-IsGranted g e
both_ok-IsGranted false j k i g h e = ok-IsGranted h e

module _ (lower sha256 : String → String) where
  key_identity-IsGranted :
      (matched : String) (grant : KeyGrant) → IsGranted (key_identity lower matched grant)
  unfolding key_identity
  key_identity-IsGranted matched (named_role name) = identity_of-IsGranted _ _ _ _ refl
  key_identity-IsGranted matched (described subject_id username roles) =
      identity_of-IsGranted _ _ _ _ (roles_or-some _ _)

  pub authenticate_key-Grants :
      (name : String) (hashes : Dict String KeyGrant)
      → Grants (authenticate_key lower sha256 name hashes)
  unfolding authenticate_key
  authenticate_key-Grants name hashes headers i h =
      elim (Result-cases (extract_raw_key lower name headers)) [
        | inr (x, e) ↦ absurd (ground (arith, h, e))
        | inl (key, e) ↦ elim (Option-cases (match_hash (lower (sha256 key)) hashes)) [
          | inl nothing ↦ absurd (ground (arith, h, e, nothing))
          | inr ((stored, grant), found) ↦
              ok-IsGranted (key_identity-IsGranted (prefix_text 8 stored) grant)
                (ground (arith, h, e, found))
        ]
      ]

  token_identity-IsGranted :
      (claims : Claims) (i : AuthenticatedIdentity)
      → token_identity lower claims ≡ ok i
      → IsGranted i
  unfolding token_identity
  token_identity-IsGranted claims i h =
      if_ok-IsGranted _ _ i _ _ (identity_of-IsGranted _ _ _ _ (roles_or-some _ _)) h

  read_token-IsGranted :
      (d : Decoded) (i : AuthenticatedIdentity) → read_token lower d ≡ ok i → IsGranted i
  unfolding read_token
  read_token-IsGranted (payload claims) i h = token_identity-IsGranted claims i h
  read_token-IsGranted expired_signature i h = absurd (ground (arith, h))
  read_token-IsGranted invalid_algorithm i h = absurd (ground (arith, h))
  read_token-IsGranted (missing_claim e) i h = absurd (ground (arith, h))
  read_token-IsGranted (other_error e) i h = absurd (ground (arith, h))

  pub authenticate_token-Grants :
      (decode : String → Decoded) → Grants (authenticate_token lower decode)
  unfolding authenticate_token
  authenticate_token-Grants decode headers i h = elim (Result-cases (extract_token lower headers)) [
    | inr (x, e) ↦ absurd (ground (arith, h, e))
    | inl (token, e) ↦ elim (Bool-cases (nonempty (or_else token ""))) [
      | inl there_is ↦
          read_token-IsGranted (decode (or_else token "")) i (ground (arith, h, e, there_is))
      | inr empty ↦ absurd (ground (arith, h, e, empty))
    ]
  ]

  keyed_identity-IsGranted : (key : Option String) → IsGranted (keyed_identity lower key)
  unfolding keyed_identity fallback_identity
  keyed_identity-IsGranted key =
      either-IsGranted (nonempty (or_else key "")) _ fallback_identity
        (of_key (test_key (or_else key ""))) fallback-IsGranted
    where
      of_key :
          (o : Option Role)
          → IsGranted (elim o [
            | none ↦ fallback_identity
            | some role ↦
                identity_of
                  ("test_" <> role_value role)
                  ("test_" <> role_value role <> "_user")
                  (role ∷ [])
                  "test_authenticator"
          ])
      of_key none = fallback-IsGranted
      of_key (some role) = identity_of-IsGranted _ _ _ _ refl

  pub authenticate_test-Grants : Grants (authenticate_test lower)
  unfolding authenticate_test named_identity
  authenticate_test-Grants headers i h =
      both_ok-IsGranted _ _ _ i (identity_of-IsGranted _ _ _ _ (roles_or-some _ _))
        (keyed_identity-IsGranted
          (key_of (headers "X-API-Key") (or_else (headers "Authorization") "")))
        h

pub bypass-Grants : Grants (λ headers. ok bypass_identity)
unfolding bypass_identity
bypass-Grants headers i h = ok-IsGranted (identity_of-IsGranted _ _ _ _ refl) h
