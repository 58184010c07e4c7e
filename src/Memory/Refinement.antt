-- ===== src/Memory/Refinement.antt =====
-- memory/in_memory.py against the abstract store.
use enterprise_multi_agent_o.Base.{
  String, ◌≡◌, refl, not, ◌||◌, none, some, List, [], ◌∷◌, ◌++◌, ◌==◌, if◌then◌else◌, string_eq,
  is_some, arith, ◌∙◌, ap, sym, ==-cases, Option-cases, or_else,
}
use enterprise_multi_agent_o.Base.Dict.{lookup, lookup-insert, lookup-erase}
use enterprise_multi_agent_o.Core.Types.{truthy}
use enterprise_multi_agent_o.Core.State.{OrchestrationState}
use enterprise_multi_agent_o.Memory.{
  Checkpoint, StateStore, save_state, get_state, save_checkpoint, get_checkpoint, list_checkpoints,
  delete_run, present, delete_state, delete_checkpoints, new_store,
}
use enterprise_multi_agent_o.Memory.Spec.{
  Call, call, answers, History, empty, of_run, find, set_latest, answer, spec_answers, IsNew,
  AreNew, saving_state, getting_state, saving_checkpoint, getting_checkpoint, listing, deleting,
  state_of, checkpoint_of, checkpoints_of, existed,
}
use enterprise_multi_agent_o.Memory.Histories.{
  ids, listed, AreDistinct, of, listed-cases, listed-or_else, find-snoc, of-snoc, listed-snoc,
  distinct-snoc, find-without, of-without, distinct-select, lookup-pop_all, present-ids, All-select,
  found-All,
}

record Sim (store : StateStore) (h : History) : Type 0 where
  states : (r : String) → lookup r store.states ≡ h.latest r
  found : (i : String) → lookup i store.checkpoints ≡ find i h.saved
  lists : (r : String) → lookup r store.run_checkpoints ≡ listed (of r h.saved)
  distinct : AreDistinct h.saved

-- Each call keeps the relation and gives the answer of the abstract store.
module _ (store : StateStore) (h : History) (m : Sim store h) where
  list-answer : (r : String) → list_checkpoints r store ≡ of r h.saved
  unfolding list_checkpoints
  list-answer r =
      ap (λ o. present (or_else o []) store.checkpoints) (m.lists r)
      ∙ ap (λ l. present l store.checkpoints) (listed-or_else (of r h.saved))
      ∙ present-ids store.checkpoints (of r h.saved) (
          All-select (λ cp. lookup cp.checkpoint_id store.checkpoints ≡ some cp) (of_run r) h.saved
            (found-All store.checkpoints h.saved m.distinct (λ i cp e. m.found i ∙ e)))

  save_state-Sim : (s : OrchestrationState) → Sim (save_state s store) (answer (saving_state s) h).1
  unfolding save_state answer set_latest
  save_state-Sim s = record {
    states = λ r.
        lookup-insert r s.run_id s store.states
        ∙ ap (λ o. if r == s.run_id then some s else o) (m.states r);
    found = m.found;
    lists = m.lists;
    distinct = m.distinct;
  }

  save_checkpoint-Sim :
      (cp : Checkpoint)
      → find cp.checkpoint_id h.saved ≡ none
      → Sim (save_checkpoint cp store) (answer (saving_checkpoint cp) h).1
  unfolding save_checkpoint answer
  save_checkpoint-Sim cp n = record {
    states = m.states;
    found = λ i.
        lookup-insert i cp.checkpoint_id cp store.checkpoints
        ∙ ap (λ o. if i == cp.checkpoint_id then some cp else o) (m.found i)
        ∙ sym (find-snoc i cp h.saved n);
    lists = λ r. ground (
      arith,
      lookup-insert r cp.run_id
          (or_else (lookup cp.run_id store.run_checkpoints) [] ++ cp.checkpoint_id ∷ [])
          store.run_checkpoints,
      of-snoc r cp h.saved,
      listed-snoc cp (of r h.saved),
      m.lists r,
      m.lists cp.run_id,
      listed-or_else (of cp.run_id h.saved),
      ==-cases r cp.run_id,
    );
    distinct = distinct-snoc cp h.saved n m.distinct;
  }

  delete_run-answer :
      (r : String) → (delete_run r store).0 ≡ is_some (h.latest r) || truthy (of r h.saved)
  unfolding delete_run delete_state delete_checkpoints
  delete_run-answer r = ground (
    arith,
    Option-cases (lookup r store.states),
    listed-cases (of r h.saved),
    m.lists r,
    m.states r,
  )

  delete_run-Sim : (r : String) → Sim (delete_run r store).1 (answer (deleting r) h).1
  unfolding delete_run delete_state delete_checkpoints answer set_latest
  delete_run-Sim r = record {
    states = λ q. ground (
      arith,
      Option-cases (lookup r store.states),
      Option-cases (lookup r store.run_checkpoints),
      lookup-erase q r store.states,
      m.states r,
      m.states q,
      ==-cases q r,
    );
    found = λ i. ground (
      arith,
      Option-cases (lookup r store.states),
      listed-cases (of r h.saved),
      m.lists r,
      lookup-pop_all i (ids (of r h.saved)) store.checkpoints,
      find-without r i h.saved m.distinct,
      m.found i,
    );
    lists = λ q. ground (
      arith,
      Option-cases (lookup r store.states),
      listed-cases (of r h.saved),
      m.lists r,
      m.lists q,
      lookup-erase q r store.run_checkpoints,
      of-without q r h.saved,
      ==-cases q r,
    );
    distinct = distinct-select (λ cp. not (of_run r cp)) h.saved m.distinct;
  }

call-Sim :
    (c : Call) (store : StateStore) (h : History)
    → Sim store h
    → IsNew c h
    → ((call c store).0 ≡ (answer c h).0) × Sim (call c store).1 (answer c h).1
unfolding call answer get_state get_checkpoint IsNew
call-Sim (saving_state s) store h m n = (refl, save_state-Sim store h m s)
call-Sim (getting_state r) store h m n = (ap state_of (m.states r), m)
call-Sim (saving_checkpoint cp) store h m n = (refl, save_checkpoint-Sim store h m cp n)
call-Sim (getting_checkpoint i) store h m n = (ap checkpoint_of (m.found i), m)
call-Sim (listing r) store h m n = (ap checkpoints_of (list-answer store h m r), m)
call-Sim (deleting r) store h m n =
    (ap existed (delete_run-answer store h m r), delete_run-Sim store h m r)

answers-Sim :
    (calls : List Call) (store : StateStore) (h : History)
    → Sim store h
    → AreNew calls h
    → answers calls store ≡ spec_answers calls h
unfolding answers spec_answers AreNew
answers-Sim [] store h m n = refl
answers-Sim (c ∷ calls) store h m n =
    let step = call-Sim c store h m n.0 in
    ap (λ a. a ∷ answers calls (call c store).1) step.0
    ∙ ap (λ l. (answer c h).0 ∷ l) (answers-Sim calls (call c store).1 (answer c h).1 step.1 n.1)

empty-Sim : Sim new_store empty
unfolding lookup find
empty-Sim = record { states = λ r. refl; found = λ i. refl; lists = λ r. refl; distinct = tt }

-- Any calls of a new store, of which none saves a checkpoint under an id that the store then
-- holds, are answered as by the abstract store, which keeps the latest state of each run as a
-- function and all checkpoints in one list, in the order they were saved.
pub answers_refine :
    (calls : List Call) → AreNew calls empty → answers calls new_store ≡ spec_answers calls empty
answers_refine calls n = answers-Sim calls new_store empty empty-Sim n
