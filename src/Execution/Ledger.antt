-- ===== src/Execution/Ledger.antt =====
-- execution/idempotency.py: the ledger that maps the hash of a client's key to the run that it
-- started. Its lock makes each method one step. SHA-256 is a parameter.
pub mod Claims
use enterprise_multi_agent_o.Base.{
  ℕ, zero, suc, ◌+◌, String, ◌<>◌, ◌≡◌, refl, ◌≢◌, Bool, true, false, not, Option, none, some, List,
  [], ◌∷◌, ◌==◌, ==-self, if◌then◌else◌, string_eq, nat_eq, arith, ◌⊎◌, inl, inr, Option-cases,
  is_some,
}
use enterprise_multi_agent_o.Base.Dict.{Dict, lookup, insert, erase, lookup-insert, lookup-erase}
use enterprise_multi_agent_o.Core.Types.{Payload}
use enterprise_multi_agent_o.Errors.{
  Exception, orchestrator_error, Result, ok, raises, idempotency_conflict_error,
}
use enterprise_multi_agent_o.Execution.Futures.{
  Futures, FutureState, waiting, resolved, rejected, create_future, settle,
}

-- `compute_key_hash`, over the hash of a text.
unfoldable pub compute_key_hash : (String → String) → (subject_id idempotency_key : String) → String
compute_key_hash hash subject_id idempotency_key = hash (subject_id <> ":" <> idempotency_key)

-- `compute_request_hash`, over the hash and `json.dumps` of a request with its context.
unfoldable pub compute_request_hash :
    (hash : String → String) (dumps : String → Payload → String) (request : String)
    (custom_context : Option Payload)
    → String
compute_request_hash hash dumps request none = hash (dumps request [])
compute_request_hash hash dumps request (some c) = hash (dumps request c)

pub record IdempotencyRecord (R : Type 0) : Type 0 where
  pub key_hash : String
  pub request_hash : String
  pub run_id : String
  pub created_at : ℕ
  pub future : ℕ
  pub completed : Bool
  pub cached_result : Option R

-- The ledger with the futures that it shares with its callers.
pub record Ledger (R : Type 0) : Type 0 where
  pub records : Dict String (IdempotencyRecord R)
  pub futures : Futures R

-- What `acquire_or_join` returns: is_initiator, the future and the cached result.
pub record Claim (R : Type 0) : Type 0 where
  pub is_initiator : Bool
  pub future : ℕ
  pub cached_result : Option R

module _ {R : Type 0} where
  -- The record of a claim, with the defaults of its class.
  abbrev pub open_record :
      (now : ℕ) (key_hash request_hash run_id : String) (future : ℕ) → IdempotencyRecord R
  open_record now key_hash request_hash run_id future = record {
    key_hash = key_hash;
    request_hash = request_hash;
    run_id = run_id;
    created_at = now;
    future = future;
    completed = false;
    cached_result = none;
  }

  -- The first two writes of `complete`.
  abbrev pub mark_complete : R → IdempotencyRecord R → IdempotencyRecord R
  mark_complete result r = record r { completed = true; cached_result = some result }

  unfoldable pub acquire_or_join :
      (now : ℕ) (key_hash request_hash run_id : String) → Ledger R → Result (Claim R) × Ledger R
  unfolding create_future insert lookup
  acquire_or_join now key_hash request_hash run_id l = elim (lookup key_hash l.records) [
    | some record_ ↦
        if record_.request_hash == request_hash
        then (
          ok (record {
            is_initiator = false;
            future = record_.future;
            cached_result = if record_.completed then record_.cached_result else none;
          }),
          l,
        )
        else (raises (orchestrator_error idempotency_conflict_error), l)
    | none ↦
        let (futures, future) = create_future l.futures in
        (
          ok (record { is_initiator = true; future = future; cached_result = none }),
          record {
            records =
                insert key_hash (open_record now key_hash request_hash run_id future) l.records;
            futures = futures;
          },
        )
  ]

  unfoldable pub complete : (key_hash : String) → R → Ledger R → Ledger R
  unfolding settle insert lookup
  complete key_hash result l = elim (lookup key_hash l.records) [
    | none ↦ l
    | some record_ ↦ record {
      records = insert key_hash (mark_complete result record_) l.records;
      futures = settle record_.future (resolved result) l.futures;
    }
  ]

  unfoldable pub fail : (key_hash : String) → Exception → Ledger R → Ledger R
  unfolding settle erase lookup
  fail key_hash error l = elim (lookup key_hash l.records) [
    | none ↦ l
    | some record_ ↦ record {
      records = erase key_hash l.records;
      futures = settle record_.future (rejected error) l.futures;
    }
  ]

  unfoldable pub clear : Ledger R → Ledger R
  clear l = record l { records = [] }
