-- ===== src/Execution/Futures.antt =====
-- asyncio's futures, as far as execution/ uses them: a heap of cells that the ledger, the queue and
-- the callers share by number.
use enterprise_multi_agent_o.Base.{
  ℕ, ◌+◌, ◌≡◌, ◌≢◌, Bool, true, false, Option, some, if◌then◌else◌, nat_eq, arith,
}
use enterprise_multi_agent_o.Base.Dict.{Dict, lookup, insert, lookup-insert}
use enterprise_multi_agent_o.Errors.{Exception}

pub data FutureState (R : Type 0) : Type 0 where
  waiting : FutureState R
  resolved : R → FutureState R
  rejected : Exception → FutureState R

-- The futures made so far, and the number of the next.
pub record Futures (R : Type 0) : Type 0 where
  pub cells : Dict ℕ (FutureState R)
  pub next : ℕ

module _ {R : Type 0} where
  -- `future.done()`; a number that was never given out counts as done.
  abbrev pub is_waiting : Option (FutureState R) → Bool
  is_waiting (some waiting) = true
  is_waiting _ = false

  -- `loop.create_future()`
  unfoldable pub create_future : Futures R → Futures R × ℕ
  unfolding insert
  create_future h = (record { cells = insert h.next waiting h.cells; next = h.next + 1 }, h.next)

  -- `if not future.done(): future.set_result(...)`, or `set_exception`.
  unfoldable pub settle : ℕ → FutureState R → Futures R → Futures R
  unfolding insert lookup
  settle n s h =
      if is_waiting (lookup n h.cells) then record h { cells = insert n s h.cells } else h

  -- A settled future keeps its outcome.
  pub settle_once :
      (n m : ℕ) (s t : FutureState R) (h : Futures R)
      → lookup m h.cells ≡ some t
      → t ≢ waiting
      → lookup m (settle n s h).cells ≡ some t
  unfolding settle
  settle_once n m s t h e done = ground (arith, lookup-insert m n s h.cells)

  pub settle-resolves :
      (n : ℕ) (s : FutureState R) (h : Futures R)
      → lookup n h.cells ≡ some waiting
      → lookup n (settle n s h).cells ≡ some s
  unfolding settle
  settle-resolves n s h e = ground (arith, e, lookup-insert n n s h.cells)
