-- ===== src/Execution/Ledger/Claims.antt =====
-- The ledger of execution/idempotency.py over any sequence of its methods.
use enterprise_multi_agent_o.Base.{
  ℕ, String, ◌≡◌, ◌∙◌, ◌≢◌, true, false, Option, none, some, List, [], ◌∷◌, ◌==◌, ==-cases,
  Option-cases, if◌then◌else◌, string_eq, nat_eq, arith, ◌⊎◌, inl, inr,
}
use enterprise_multi_agent_o.Base.Dict.{lookup, insert, lookup-insert, lookup-erase}
use enterprise_multi_agent_o.Errors.{
  Exception, orchestrator_error, Result, ok, raises, idempotency_conflict_error,
}
use enterprise_multi_agent_o.Execution.Futures.{create_future}
use enterprise_multi_agent_o.Execution.Ledger.{
  Ledger, Claim, open_record, mark_complete, acquire_or_join, complete, fail, clear,
}

-- A call of a method of the ledger by some client or worker.
pub data Call (R : Type 0) : Type 0 where
  acquiring : (now : ℕ) (key_hash request_hash run_id : String) → Call R
  completing : (key_hash : String) → R → Call R
  failing : (key_hash : String) → Exception → Call R
  clearing : Call R

module _ {R : Type 0} where
  unfoldable pub perform : Call R → Ledger R → Ledger R
  unfolding acquire_or_join complete fail clear
  perform (acquiring now k q r) l = (acquire_or_join now k q r l).1
  perform (completing k v) l = complete k v l
  perform (failing k x) l = fail k x l
  perform clearing l = clear l

  unfoldable pub perform_all : List (Call R) → Ledger R → Ledger R
  unfolding perform
  perform_all [] l = l
  perform_all (c ∷ calls) l = perform_all calls (perform c l)

  -- The call does not release the key.
  abbrev pub Spares : String → Call R → Type 0
  Spares k (acquiring now j q r) = Unit
  Spares k (completing j v) = Unit
  Spares k (failing j x) = j ≢ k
  Spares k clearing = ⊥

  abbrev pub SpareAll : String → List (Call R) → Type 0
  SpareAll k [] = Unit
  SpareAll k (c ∷ calls) = Spares k c × SpareAll k calls

  -- The request that has taken a key, and the future that delivers its outcome.
  unfoldable pub holder : String → Ledger R → Option (String × ℕ)
  unfolding lookup
  holder k l = elim (lookup k l.records) [ none ↦ none | some e ↦ some (e.request_hash, e.future) ]

  holder-acquire_or_join :
      (now : ℕ) (j p r k : String) (l : Ledger R) (c : String × ℕ)
      → holder k l ≡ some c
      → holder k (acquire_or_join now j p r l).1 ≡ some c
  unfolding acquire_or_join create_future holder
  holder-acquire_or_join now j p r k l c h =
      ground (arith, h, lookup-insert k j (open_record now j p r l.futures.next) l.records)

  holder-complete :
      (j : String) (v : R) (k : String) (l : Ledger R) → holder k (complete j v l) ≡ holder k l
  unfolding complete holder
  holder-complete j v k l = elim (Option-cases (lookup j l.records)) [
    | inl g ↦ ground (arith, g)
    | inr (f, g) ↦ ground (arith, g, lookup-insert k j (mark_complete v f) l.records)
  ]

  holder-fail :
      (j : String) (x : Exception) (k : String) (l : Ledger R)
      → holder k (fail j x l) ≡ (if k == j then none else holder k l)
  unfolding fail holder
  holder-fail j x k l = ground (arith, lookup-erase k j l.records)

  holder-perform :
      (c : Call R) (k : String) (l : Ledger R) (h : String × ℕ)
      → Spares k c
      → holder k l ≡ some h
      → holder k (perform c l) ≡ some h
  unfolding perform
  holder-perform (acquiring now j p r) k l h s e = holder-acquire_or_join now j p r k l h e
  holder-perform (completing j v) k l h s e = holder-complete j v k l ∙ e
  holder-perform (failing j x) k l h s e = ground (arith, holder-fail j x k l)
  holder-perform clearing k l h s e = absurd s

  holder-perform_all :
      (calls : List (Call R)) (k : String) (l : Ledger R) (h : String × ℕ)
      → SpareAll k calls
      → holder k l ≡ some h
      → holder k (perform_all calls l) ≡ some h
  unfolding perform_all
  holder-perform_all [] k l h s e = e
  holder-perform_all (c ∷ calls) k l h (s, more) e =
      holder-perform_all calls k (perform c l) h more (holder-perform c k l h s e)

  holder-claimed :
      (now : ℕ) (k q r : String) (l : Ledger R) (c : Claim R)
      → (acquire_or_join now k q r l).0 ≡ ok c
      → holder k (acquire_or_join now k q r l).1 ≡ some (q, c.future)
  unfolding acquire_or_join create_future holder
  holder-claimed now k q r l c e =
      ground (arith, e, lookup-insert k k (open_record now k q r l.futures.next) l.records)

  -- The answer to a claim on a key that a request holds.
  abbrev pub Answers :
      (held asked : String) (n : ℕ) → Result (Claim R) × Ledger R → Ledger R → Type 0
  Answers held asked n answer l =
      ((asked ≡ held)
        × (x : Option R) × (answer
            ≡ (ok (record { is_initiator = false; future = n; cached_result = x }), l)))
      ⊎ ((asked ≢ held) × (answer ≡ (raises (orchestrator_error idempotency_conflict_error), l)))

  pub held-Answers :
      (now : ℕ) (k q r p : String) (n : ℕ) (l : Ledger R)
      → holder k l ≡ some (p, n)
      → Answers p q n (acquire_or_join now k q r l) l
  unfolding acquire_or_join holder
  held-Answers now k q r p n l h = elim (Option-cases (lookup k l.records)) [
    | inl g ↦ absurd (ground (arith, h, g))
    | inr (e, g) ↦ elim (==-cases e.request_hash q) [
      | inl same ↦ inl (
        ground (arith, h, g, same),
        if e.completed then e.cached_result else none,
        ground (arith, h, g, same),
      )
      | inr differ ↦ inr (ground (arith, h, g, differ), ground (arith, h, g, differ))
    ]
  ]

  -- Once a claim on a key has succeeded, and whatever calls of the ledger follow of which none
  -- fails
  -- that key or clears the ledger, a later claim on it with the same request hash is not an
  -- initiator and gets the
  -- same future, one with another request hash raises the conflict, and neither changes the ledger.
  pub acquire_or_join-once :
      (now later : ℕ) (k q r p s : String) (l : Ledger R) (c : Claim R) (calls : List (Call R))
      → (acquire_or_join now k q r l).0 ≡ ok c
      → SpareAll k calls
      → Answers q p c.future
          (acquire_or_join later k p s (perform_all calls (acquire_or_join now k q r l).1))
          (perform_all calls (acquire_or_join now k q r l).1)
  acquire_or_join-once now later k q r p s l c calls e spare =
      held-Answers later k p s q c.future (perform_all calls (acquire_or_join now k q r l).1) (
        holder-perform_all calls k (acquire_or_join now k q r l).1 (q, c.future) spare
          (holder-claimed now k q r l c e))

  -- A failure gives the key back: whatever the ledger held, the next claim on it is an initiator.
  pub fail-releases :
      (now : ℕ) (k q r : String) (x : Exception) (l : Ledger R)
      → (acquire_or_join now k q r (fail k x l)).0
        ≡ ok (record {
          is_initiator = true;
          future = (fail k x l).futures.next;
          cached_result = none;
        })
  unfolding acquire_or_join create_future fail
  fail-releases now k q r x l = ground (arith, lookup-erase k k l.records)

  -- The ledger after a claim on a key that was free.
  abbrev pub opened : (now : ℕ) (k q r : String) → Ledger R → Ledger R
  opened now k q r l = record {
    records = insert k (open_record now k q r l.futures.next) l.records;
    futures = (create_future l.futures).0;
  }

  pub acquire_or_join-free :
      (now : ℕ) (k q r : String) (l : Ledger R)
      → lookup k l.records ≡ none
      → acquire_or_join now k q r l ≡ (
        ok (record { is_initiator = true; future = l.futures.next; cached_result = none }),
        opened now k q r l,
      )
  unfolding acquire_or_join create_future
  acquire_or_join-free now k q r l e = ground (arith, e)

  pub acquire_or_join-opened :
      (now later : ℕ) (k q r p : String) (l : Ledger R)
      → acquire_or_join later k q p (opened now k q r l) ≡ (
        ok (record { is_initiator = false; future = l.futures.next; cached_result = none }),
        opened now k q r l,
      )
  unfolding acquire_or_join create_future
  acquire_or_join-opened now later k q r p l =
      ground (arith, lookup-insert k k (open_record now k q r l.futures.next) l.records)
