-- ===== src/Api/Authorized.antt =====
-- The route for human decisions of api/routes/human.py: who may use it, and on which runs.
use enterprise_multi_agent_o.Base.{
  ℕ, String, ◌≡◌, refl, true, false, none, some, string_eq, nat_eq, inl, inr, ◌⊎◌, List, [], ◌∷◌,
  ◌++◌, contains, ==-cases, sym, ap, ◌∙◌, subst, Bool-cases, arith,
}
use enterprise_multi_agent_o.Base.Dict.{lookup}
use enterprise_multi_agent_o.Base.Text.{strip_text}
use enterprise_multi_agent_o.Core.Types.{HumanRequestStatus}
use enterprise_multi_agent_o.Core.State.{OrchestrationState, HumanDecision, is_terminal}
use enterprise_multi_agent_o.Errors.{ok, Result-cases}
use enterprise_multi_agent_o.Security.Roles.{Permission, AuthenticatedIdentity, has_permission}
use enterprise_multi_agent_o.Security.RateLimiter.{Store}
use enterprise_multi_agent_o.Execution.Models.{ExecutionJob, WorkItem, resume, Backend}
use enterprise_multi_agent_o.Execution.Backend.{start}
use enterprise_multi_agent_o.Execution.Backend.Resumption.{submit_resume, requeue, resume_error}
use enterprise_multi_agent_o.Execution.Backend.Refusals.{submit_resume-accepts}
use enterprise_multi_agent_o.Api.{Response, answers, http_exception, fails, Limits, route}
use enterprise_multi_agent_o.Api.Human.{
  HumanDecisionRequest, required_permission, new_decision, parse_status, check_decision,
  read_decision, on_resumed, resume_with, submit_human_decision,
}
use enterprise_multi_agent_o.Api.Handled.{route-IsHandled}

-- The decision that the text of a status asks for, and the permission of the caller that it takes.
abbrev pub Verdict : (text : String) → AuthenticatedIdentity → HumanRequestStatus → Type 0
Verdict text identity status =
    ((text ≡ "approved")
      × (status ≡ HumanRequestStatus.approved)
      × (has_permission Permission.hitl_approve identity ≡ true))
    ⊎ ((text ≡ "rejected")
        × (status ≡ HumanRequestStatus.rejected)
        × (has_permission Permission.hitl_reject identity ≡ true))
    ⊎ ((text ≡ "modified")
        × (status ≡ HumanRequestStatus.modified)
        × (has_permission Permission.hitl_modify identity ≡ true))

-- The texts that the schema of the request lets pass.
abbrev pub verdicts : List String
verdicts = "approved" ∷ "rejected" ∷ "modified" ∷ []

-- The decision is what the request says, under the name of the caller.
pub record IsDecision (text : String) (identity : AuthenticatedIdentity)
    (payload : HumanDecisionRequest) (d : HumanDecision) : Type 0 where
  pub verdict : Verdict text identity d.status
  pub reviewer : d.reviewer_id ≡ some identity.subject_id
  pub request : d.request_id ≡ payload.request_id
  pub note : d.decision_note ≡ payload.decision_note
  pub modified : d.modified_payload ≡ payload.modified_payload

-- What the route passes on: at the end of the queue, the resumption of the run that is stored and
-- waits for a human, with the decision.
pub record IsPassedOn (text run_id : String) (identity : AuthenticatedIdentity)
    (payload : HumanDecisionRequest) (b after : Backend) : Type 0 where
  pub state : OrchestrationState
  pub decision : HumanDecision
  pub item : WorkItem
  pub stored : lookup run_id b.store ≡ some state
  pub waits : state.requires_human ≡ true
  pub active : is_terminal state.metadata.status ≡ false
  pub decided : IsDecision text identity payload decision
  pub of_run : item.run_id ≡ run_id
  pub work : item.work ≡ resume state decision
  pub queued : after.queue ≡ b.queue ++ some item ∷ []

text-cases :
    (text : String)
    → contains verdicts text ≡ true
    → (text ≡ "approved") ⊎ (text ≡ "rejected") ⊎ (text ≡ "modified")
text-cases text h = elim (==-cases text "approved") [
  | inl (_, a) ↦ inl a
  | inr (a, _) ↦ elim (==-cases text "rejected") [
    | inl (_, b) ↦ inr (inl b)
    | inr (b, _) ↦ elim (==-cases text "modified") [
      | inl (_, c) ↦ inr (inr c)
      | inr (c, _) ↦ absurd (ground (arith, h, a, b, c))
    ]
  ]
]

-- A decision that the check lets pass is made of the request.
check_decision-made :
    (now : ℕ) (identity : AuthenticatedIdentity) (payload : HumanDecisionRequest)
    (status : HumanRequestStatus) (p : Permission) (d : HumanDecision)
    → required_permission status ≡ some p
    → check_decision now identity payload status ≡ answers d
    → (has_permission p identity ≡ true) × (new_decision now identity payload status ≡ d)
unfolding check_decision
check_decision-made now identity payload status p d needs e =
    elim (Bool-cases (has_permission p identity)) [
      | inl has ↦ (has, ground (arith, e, needs, has))
      | inr lacks ↦ absurd (ground (arith, e, needs, lacks))
    ]

made-IsDecision :
    (text : String) (now : ℕ) (identity : AuthenticatedIdentity) (payload : HumanDecisionRequest)
    (status : HumanRequestStatus) (d : HumanDecision)
    → Verdict text identity status
    → new_decision now identity payload status ≡ d
    → IsDecision text identity payload d
made-IsDecision text now identity payload status d v e =
    subst (IsDecision text identity payload) e
      (record { verdict = v; reviewer = refl; request = refl; note = refl; modified = refl })

start-keeps : (b : Backend) → ((start b).store ≡ b.store) × ((start b).queue ≡ b.queue)
unfolding start
start-keeps b = (ground arith, ground arith)

submit_resume-queues :
    (now : ℕ) (job_id run_id : String) (d : HumanDecision) (b : Backend) (s : OrchestrationState)
    (a : ExecutionJob × ℕ)
    → lookup run_id b.store ≡ some s
    → (submit_resume now job_id run_id d b).0 ≡ ok a
    → (item : WorkItem) × (item.run_id ≡ run_id)
      × (item.work ≡ resume s d)
      × ((submit_resume now job_id run_id d b).1.queue ≡ b.queue ++ some item ∷ [])
unfolding submit_resume requeue resume_error start
submit_resume-queues now job_id run_id d b s a stored e = (
  record { run_id = run_id; work = resume s d; future = a.1; key_hash = none },
  refl,
  refl,
  ground (arith, e, stored),
)

module _ (lower : String → String) where
  -- The text of the request's status, as the handler reads it.
  abbrev pub status_text : HumanDecisionRequest → String
  status_text payload = lower (strip_text payload.status)

  read_decision-IsDecision :
      (now : ℕ) (identity : AuthenticatedIdentity) (payload : HumanDecisionRequest)
      (d : HumanDecision)
      → contains verdicts (status_text payload) ≡ true
      → read_decision lower now identity payload ≡ answers d
      → IsDecision (status_text payload) identity payload d
  unfolding read_decision required_permission parse_status string_eq
  read_decision-IsDecision now identity payload d v e =
      let text = status_text payload in
      elim (text-cases text v) [
        | inl a ↦
            let read : parse_status text ≡ some HumanRequestStatus.approved = ap parse_status a in
            let (has, same) =
              check_decision-made now identity payload HumanRequestStatus.approved
                Permission.hitl_approve d refl (ground (arith, e, read)) in
            made-IsDecision text now identity payload HumanRequestStatus.approved d
              (inl (a, refl, has)) same
        | inr (inl a) ↦
            let read : parse_status text ≡ some HumanRequestStatus.rejected = ap parse_status a in
            let (has, same) =
              check_decision-made now identity payload HumanRequestStatus.rejected
                Permission.hitl_reject d refl (ground (arith, e, read)) in
            made-IsDecision text now identity payload HumanRequestStatus.rejected d
              (inr (inl (a, refl, has))) same
        | inr (inr a) ↦
            let read : parse_status text ≡ some HumanRequestStatus.modified = ap parse_status a in
            let (has, same) =
              check_decision-made now identity payload HumanRequestStatus.modified
                Permission.hitl_modify d refl (ground (arith, e, read)) in
            made-IsDecision text now identity payload HumanRequestStatus.modified d
              (inr (inr (a, refl, has))) same
      ]

  resume_with-IsPassedOn :
      (now : ℕ) (job_id run_id text : String) (identity : AuthenticatedIdentity)
      (payload : HumanDecisionRequest) (r : Response HumanDecision) (b : Backend)
      (a : ExecutionJob × ℕ)
      → ((d : HumanDecision) → r ≡ answers d → IsDecision text identity payload d)
      → (resume_with now job_id run_id r b).0 ≡ answers a
      → IsPassedOn text run_id identity payload b (resume_with now job_id run_id r b).1
  unfolding resume_with on_resumed
  resume_with-IsPassedOn now job_id run_id text identity payload (http_exception c t) b a means e =
      absurd (ground (arith, e))
  resume_with-IsPassedOn now job_id run_id text identity payload (fails x) b a means e =
      absurd (ground (arith, e))
  resume_with-IsPassedOn now job_id run_id text identity payload (answers d) b a means e =
      elim (Result-cases (submit_resume now job_id run_id d (start b)).0) [
        | inr (x, raised) ↦ absurd (ground (arith, e, raised))
        | inl (j, accepted) ↦
            let (_, _, s, stored, waits, going) =
              submit_resume-accepts now job_id run_id d (start b) j accepted in
            let (item, of_run, work, queued) =
              submit_resume-queues now job_id run_id d (start b) s j stored accepted in
            let (same_store, same_queue) = start-keeps b in
            record {
              state = s;
              decision = d;
              item = item;
              stored = ap (lookup run_id) (sym same_store) ∙ stored;
              waits = waits;
              active = going;
              decided = means d refl;
              of_run = of_run;
              work = work;
              queued = queued ∙ ap (λ q. q ++ some item ∷ []) same_queue;
            }
      ]

  -- Where the request's status is approved, rejected or modified, as its schema has it, what the
  -- route for human decisions passes on when it answers is, at the end of the queue, the resumption
  -- of the run that it names, which is stored, waits for a human and is in no terminal status, with
  -- a decision of the status, the note and the payload of the request, whose reviewer is the
  -- caller, who has the permission that this status takes.
  pub submit_human_decision-IsPassedOn :
      (limits : Limits) (now : ℕ) (job_id run_id : String) (identity : AuthenticatedIdentity)
      (payload : HumanDecisionRequest) (limiter : Store) (b : Backend) (a : ExecutionJob × ℕ)
      → contains verdicts (status_text payload) ≡ true
      → let routed =
          route none limits identity
            (submit_human_decision lower now job_id run_id identity payload)
            (limiter, b) in
        routed.0 ≡ answers a → IsPassedOn (status_text payload) run_id identity payload b routed.1.1
  unfolding submit_human_decision
  submit_human_decision-IsPassedOn limits now job_id run_id identity payload limiter b a v e =
      let (_, handled, after) =
        route-IsHandled none limits identity
          (submit_human_decision lower now job_id run_id identity payload) limiter b a e in
      subst (IsPassedOn (status_text payload) run_id identity payload b) (sym after) (
        resume_with-IsPassedOn now job_id run_id (status_text payload) identity payload
          (read_decision lower now identity payload) b a
          (λ d decided. read_decision-IsDecision now identity payload d v decided) handled)
