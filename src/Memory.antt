-- ===== src/Memory.antt =====
-- memory/base.py and memory/in_memory.py: the state store. A stored model is a deep copy, so a
-- value; the lock-free coroutines have no await, so each call is one step.
pub mod Spec
pub mod Histories
pub mod Refinement
pub mod Kept
mod Tests
use enterprise_multi_agent_o.Base.{
  ℕ, String, Bool, true, false, Option, none, some, List, [], ◌∷◌, ◌++◌, string_eq, or_else,
}
use enterprise_multi_agent_o.Base.Dict.{Dict, lookup, insert, erase}
use enterprise_multi_agent_o.Core.Types.{Payload}
use enterprise_multi_agent_o.Core.State.{OrchestrationState}

pub record Checkpoint : Type 0 where
  pub checkpoint_id : String
  pub run_id : String
  pub step : ℕ
  pub state : OrchestrationState
  pub timestamp : ℕ
  pub metadata : Payload

pub record StateStore : Type 0 where
  pub states : Dict String OrchestrationState
  pub checkpoints : Dict String Checkpoint
  pub run_checkpoints : Dict String (List String)

abbrev pub new_store : StateStore
new_store = record { states = []; checkpoints = []; run_checkpoints = [] }

unfoldable pub save_state : OrchestrationState → StateStore → StateStore
unfolding insert
save_state state store = record store { states = insert state.run_id state store.states }

unfoldable pub get_state : String → StateStore → Option OrchestrationState
unfolding lookup
get_state run_id store = lookup run_id store.states

-- The list of a run starts empty when its first checkpoint is saved.
unfoldable pub save_checkpoint : Checkpoint → StateStore → StateStore
unfolding insert lookup
save_checkpoint cp store = record store {
  checkpoints = insert cp.checkpoint_id cp store.checkpoints;
  run_checkpoints =
      insert cp.run_id
        (or_else (lookup cp.run_id store.run_checkpoints) [] ++ cp.checkpoint_id ∷ [])
        store.run_checkpoints;
}

unfoldable pub get_checkpoint : String → StateStore → Option Checkpoint
unfolding lookup
get_checkpoint checkpoint_id store = lookup checkpoint_id store.checkpoints

-- The comprehension of `list_checkpoints`, which passes over ids without a checkpoint.
unfoldable pub present : List String → Dict String Checkpoint → List Checkpoint
unfolding lookup
present [] checkpoints = []
present (cid ∷ cp_ids) checkpoints = elim (lookup cid checkpoints) [
  | none ↦ present cp_ids checkpoints
  | some cp ↦ cp ∷ present cp_ids checkpoints
]

unfoldable pub list_checkpoints : String → StateStore → List Checkpoint
unfolding present lookup
list_checkpoints run_id store =
    present (or_else (lookup run_id store.run_checkpoints) []) store.checkpoints

-- `for cid in cp_ids: self._checkpoints.pop(cid, None)`
unfoldable pub pop_all : List String → Dict String Checkpoint → Dict String Checkpoint
unfolding erase
pop_all [] checkpoints = checkpoints
pop_all (cid ∷ cp_ids) checkpoints = pop_all cp_ids (erase cid checkpoints)

-- The two `if`s of `delete_run`; the Boolean is `existed`.
unfoldable pub delete_state : String → StateStore → Bool × StateStore
unfolding lookup erase
delete_state run_id store = elim (lookup run_id store.states) [
  | none ↦ (false, store)
  | some _ ↦ (true, record store { states = erase run_id store.states })
]

unfoldable pub delete_checkpoints : String → Bool × StateStore → Bool × StateStore
unfolding lookup erase pop_all
delete_checkpoints run_id (existed, store) = elim (lookup run_id store.run_checkpoints) [
  | none ↦ (existed, store)
  | some cp_ids ↦ (
    true,
    record store {
      run_checkpoints = erase run_id store.run_checkpoints;
      checkpoints = pop_all cp_ids store.checkpoints;
    },
  )
]

unfoldable pub delete_run : String → StateStore → Bool × StateStore
unfolding delete_state delete_checkpoints
delete_run run_id store = delete_checkpoints run_id (delete_state run_id store)
