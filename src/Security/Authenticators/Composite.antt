-- ===== src/Security/Authenticators/Composite.antt =====
-- security/authenticators.py, `CompositeAuthenticator`.
use enterprise_multi_agent_o.Base.{
  ◌≡◌, refl, ◌⊎◌, inl, inr, Bool, true, false, not, none, some, List, [], ◌∷◌, ◌++◌, ◌==◌,
  if◌then◌else◌, string_eq, arith, ap, sym, subst, Bool-cases, ◌∙◌,
}
use enterprise_multi_agent_o.Base.Lists.{All, In, here, there, All-In, select, last?}
use enterprise_multi_agent_o.Errors.{
  OrchestratorError, Exception, orchestrator_error, other, cancelled, ok, raises,
  authentication_error, is_authentication_error, Result-cases,
}
use enterprise_multi_agent_o.Security.Roles.{AuthenticatedIdentity}
use enterprise_multi_agent_o.Security.Authenticators.{Headers, Authenticator}
use enterprise_multi_agent_o.Security.Authenticators.Chain.{try_all, authenticate_composite}

-- The authenticators refuse the request with these errors, one after another.
abbrev pub Refuse : Headers → List Authenticator → List OrchestratorError → Type 0
Refuse headers [] [] = Unit
Refuse headers (a ∷ rest) (e ∷ errors) =
    (a headers ≡ raises (orchestrator_error e))
    × (is_authentication_error e.kind ≡ true)
    × Refuse headers rest errors
Refuse headers _ _ = ⊥

unfoldable pub missing : OrchestratorError
unfolding authentication_error
missing = authentication_error "Missing authentication credentials." "MISSING_CREDENTIALS"

-- Credentials were given.
unfoldable pub is_specific : OrchestratorError → Bool
is_specific e = not (e.code == "MISSING_CREDENTIALS")

abbrev pub last_or : OrchestratorError → List OrchestratorError → OrchestratorError
last_or default errors = elim (last? errors) [ none ↦ default | some e ↦ e ]

last_or-default :
    (d e f : OrchestratorError) (errors : List OrchestratorError)
    → last_or d (f ∷ errors) ≡ last_or e (f ∷ errors)
last_or-default d e f [] = refl
last_or-default d e f (g ∷ errors) = last_or-default d e g errors

last_or-cons :
    (default e : OrchestratorError) (errors : List OrchestratorError)
    → last_or default (e ∷ errors) ≡ last_or e errors
last_or-cons default e [] = refl
last_or-cons default e (f ∷ errors) = last_or-default default e f errors

-- The last error after one more refusal.
after_refusal : OrchestratorError → OrchestratorError → OrchestratorError
after_refusal last e = if e.code == "MISSING_CREDENTIALS" then last else e

last_or-select :
    (last e : OrchestratorError) (errors : List OrchestratorError)
    → last_or (after_refusal last e) (select is_specific errors)
      ≡ last_or last (select is_specific (e ∷ errors))
unfolding is_specific after_refusal
last_or-select last e errors = ground (
  arith,
  Bool-cases (e.code == "MISSING_CREDENTIALS"),
  last_or-cons last e (select is_specific errors),
)

try_all-refusal :
    (headers : Headers) (a : Authenticator) (rest : List Authenticator) (e last : OrchestratorError)
    → a headers ≡ raises (orchestrator_error e)
    → is_authentication_error e.kind ≡ true
    → try_all (a ∷ rest) (orchestrator_error last) headers
      ≡ try_all rest (orchestrator_error (after_refusal last e)) headers
unfolding try_all after_refusal
try_all-refusal headers a rest e last h kind =
    ground (arith, h, kind, Bool-cases (e.code == "MISSING_CREDENTIALS"))

try_all-refused :
    (headers : Headers) (these : List Authenticator) (errors : List OrchestratorError)
    (last : OrchestratorError)
    → Refuse headers these errors
    → try_all these (orchestrator_error last) headers
      ≡ raises (orchestrator_error (last_or last (select is_specific errors)))
unfolding try_all
try_all-refused headers [] [] last h = refl
try_all-refused headers [] (e ∷ errors) last h = absurd h
try_all-refused headers (a ∷ these) [] last h = absurd h
try_all-refused headers (a ∷ these) (e ∷ errors) last h =
    try_all-refusal headers a these e last h.0 h.1
    ∙ try_all-refused headers these errors (after_refusal last e) h.2
    ∙ ap (λ x. raises (orchestrator_error x)) (last_or-select last e errors)

-- If every authenticator of a composite refuses a request, the composite raises the last of their
-- errors that is not for missing credentials, or, where there is none, an error for missing
-- credentials.
pub authenticate_composite-refused :
    (headers : Headers) (a : Authenticator) (rest : List Authenticator)
    (errors : List OrchestratorError)
    → Refuse headers (a ∷ rest) errors
    → authenticate_composite (a ∷ rest) headers
      ≡ raises (orchestrator_error (last_or missing (select is_specific errors)))
unfolding authenticate_composite missing authentication_error
authenticate_composite-refused headers a rest errors h =
    try_all-refused headers (a ∷ rest) errors missing h

-- A request that an authenticator does not let through, by an error that the composite catches or
-- by an identity that is not authenticated.
abbrev pub PassesOver : Headers → Authenticator → Type 0
PassesOver headers a =
    ((e : OrchestratorError) × (a headers ≡ raises (orchestrator_error e))
      × (is_authentication_error e.kind ≡ true))
    ⊎ ((i : AuthenticatedIdentity) × (a headers ≡ ok i) × (i.is_authenticated ≡ false))

-- The first authenticator that lets the request through does so with the identity.
pub record Accepts (headers : Headers) (these : List Authenticator) (i : AuthenticatedIdentity)
    : Type 0 where
  pub before : List Authenticator
  pub one : Authenticator
  pub rest : List Authenticator
  pub split : these ≡ before ++ one ∷ rest
  pub passed : All (PassesOver headers) before
  pub answers : one headers ≡ ok i
  pub authenticated : i.is_authenticated ≡ true

Accepts-later :
    {headers : Headers} {these : List Authenticator} {i : AuthenticatedIdentity} (a : Authenticator)
    → PassesOver headers a
    → Accepts headers these i
    → Accepts headers (a ∷ these) i
Accepts-later a over p = record {
  before = a ∷ p.before;
  one = p.one;
  rest = p.rest;
  split = ap (λ l. a ∷ l) p.split;
  passed = (over, p.passed);
  answers = p.answers;
  authenticated = p.authenticated;
}

try_all-Accepts :
    (headers : Headers) (these : List Authenticator) (last : Exception) (i : AuthenticatedIdentity)
    → try_all these last headers ≡ ok i
    → Accepts headers these i
unfolding try_all
try_all-Accepts headers [] last i h = absurd (ground (arith, h))
try_all-Accepts headers (a ∷ these) last i h = elim (Result-cases (a headers)) [
  | inl (j, e) ↦ elim (Bool-cases j.is_authenticated) [
    | inl live ↦ record {
      before = [];
      one = a;
      rest = these;
      split = refl;
      passed = tt;
      answers = ground (arith, h, e, live);
      authenticated = ground (arith, h, e, live);
    }
    | inr idle ↦
        Accepts-later a (inr (j, e, idle))
          (try_all-Accepts headers these last i (ground (arith, h, e, idle)))
  ]
  | inr (orchestrator_error x, e) ↦ elim (Bool-cases (is_authentication_error x.kind)) [
    | inl kind ↦ Accepts-later a (inl (x, e, kind)) (
        try_all-Accepts headers these
          (if x.code == "MISSING_CREDENTIALS" then last else orchestrator_error x) i
          (ground (arith, h, e, kind)))
    | inr kind ↦ absurd (ground (arith, h, e, kind))
  ]
  | inr (other t, e) ↦ absurd (ground (arith, h, e))
  | inr (cancelled, e) ↦ absurd (ground (arith, h, e))
]

-- If a composite answers a request with an identity, that identity is authenticated and is the
-- answer of one of its authenticators, and each one before it has refused the request or has
-- answered with an identity that is not authenticated.
pub authenticate_composite-Accepts :
    (headers : Headers) (these : List Authenticator) (i : AuthenticatedIdentity)
    → authenticate_composite these headers ≡ ok i
    → Accepts headers these i
unfolding authenticate_composite
authenticate_composite-Accepts headers [] i h = absurd (ground (arith, h))
authenticate_composite-Accepts headers (a ∷ rest) i h = try_all-Accepts headers (a ∷ rest) _ i h

-- Every identity that the authenticator answers a request with satisfies the predicate.
abbrev pub Gives : (Headers → AuthenticatedIdentity → Type 0) → Authenticator → Type 0
Gives Q a = (headers : Headers) (i : AuthenticatedIdentity) → a headers ≡ ok i → Q headers i

In-split : {A : Type 0} (before : List A) (x : A) (rest : List A) → In x (before ++ x ∷ rest)
In-split [] x rest = here refl
In-split (y ∷ before) x rest = there (In-split before x rest)

pub composite-Gives :
    (Q : Headers → AuthenticatedIdentity → Type 0) (these : List Authenticator)
    → All (Gives Q) these
    → Gives Q (authenticate_composite these)
composite-Gives Q these g headers i h =
    let p = authenticate_composite-Accepts headers these i h in
    All-In (Gives Q) g (subst (In p.one) (sym p.split) (In-split p.before p.one p.rest)) headers i
      p.answers

pub All-append :
    {A : Type 0} (P : A → Type 0) (xs ys : List A) → All P xs → All P ys → All P (xs ++ ys)
All-append P [] ys h k = k
All-append P (x ∷ xs) ys h k = (h.0, All-append P xs ys h.1 k)
