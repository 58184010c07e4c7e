-- ===== src/Memory/Spec.antt =====
-- What a state store promises (memory/base.py): the latest state of each run as a function, and
-- one list of all checkpoints in the order they were saved.
use enterprise_multi_agent_o.Base.{
  String, ◌≡◌, Bool, not, ◌||◌, Option, none, some, List, [], ◌∷◌, ◌++◌, ◌==◌, if◌then◌else◌,
  string_eq, is_some,
}
use enterprise_multi_agent_o.Base.Lists.{select}
use enterprise_multi_agent_o.Core.Types.{truthy}
use enterprise_multi_agent_o.Core.State.{OrchestrationState}
use enterprise_multi_agent_o.Memory.{
  Checkpoint, StateStore, save_state, get_state, save_checkpoint, get_checkpoint, list_checkpoints,
  delete_run,
}

-- A call of the store, and its answer.
pub data Call : Type 0 where
  saving_state : OrchestrationState → Call
  getting_state : (run_id : String) → Call
  saving_checkpoint : Checkpoint → Call
  getting_checkpoint : (checkpoint_id : String) → Call
  listing : (run_id : String) → Call
  deleting : (run_id : String) → Call

pub data Answer : Type 0 where
  done : Answer
  state_of : Option OrchestrationState → Answer
  checkpoint_of : Option Checkpoint → Answer
  checkpoints_of : List Checkpoint → Answer
  existed : Bool → Answer

unfoldable pub call : Call → StateStore → Answer × StateStore
unfolding save_state get_state save_checkpoint get_checkpoint list_checkpoints delete_run
call (saving_state s) store = (done, save_state s store)
call (getting_state run_id) store = (state_of (get_state run_id store), store)
call (saving_checkpoint cp) store = (done, save_checkpoint cp store)
call (getting_checkpoint cid) store = (checkpoint_of (get_checkpoint cid store), store)
call (listing run_id) store = (checkpoints_of (list_checkpoints run_id store), store)
call (deleting run_id) store = let (b, after) = delete_run run_id store in (existed b, after)

unfoldable pub answers : List Call → StateStore → List Answer
unfolding call
answers [] store = []
answers (c ∷ calls) store = let (a, after) = call c store in a ∷ answers calls after

-- The abstract store.
pub record History : Type 0 where
  pub latest : String → Option OrchestrationState
  pub saved : List Checkpoint

abbrev pub empty : History
empty = record { latest = λ _. none; saved = [] }

abbrev pub of_run : String → Checkpoint → Bool
of_run run_id cp = run_id == cp.run_id

unfoldable pub find : String → List Checkpoint → Option Checkpoint
find cid [] = none
find cid (cp ∷ saved) = if cid == cp.checkpoint_id then some cp else find cid saved

unfoldable pub set_latest :
    String
    → Option OrchestrationState
    → (String → Option OrchestrationState)
    → String
    → Option OrchestrationState
set_latest run_id s latest r = if r == run_id then s else latest r

unfoldable pub answer : Call → History → Answer × History
unfolding find set_latest
answer (saving_state s) h = (done, record h { latest = set_latest s.run_id (some s) h.latest })
answer (getting_state run_id) h = (state_of (h.latest run_id), h)
answer (saving_checkpoint cp) h = (done, record h { saved = h.saved ++ cp ∷ [] })
answer (getting_checkpoint cid) h = (checkpoint_of (find cid h.saved), h)
answer (listing run_id) h = (checkpoints_of (select (of_run run_id) h.saved), h)
answer (deleting run_id) h = (
  existed (is_some (h.latest run_id) || truthy (select (of_run run_id) h.saved)),
  record {
    latest = set_latest run_id none h.latest;
    saved = select (λ cp. not (of_run run_id cp)) h.saved;
  },
)

unfoldable pub spec_answers : List Call → History → List Answer
unfolding answer
spec_answers [] h = []
spec_answers (c ∷ calls) h = let (a, after) = answer c h in a ∷ spec_answers calls after

-- No checkpoint is saved under an id that is in the store.
unfoldable pub IsNew : Call → History → Type 0
unfolding find
IsNew (saving_checkpoint cp) h = find cp.checkpoint_id h.saved ≡ none
IsNew _ h = Unit

unfoldable pub AreNew : List Call → History → Type 0
unfolding IsNew answer
AreNew [] h = Unit
AreNew (c ∷ calls) h = IsNew c h × AreNew calls (answer c h).1
