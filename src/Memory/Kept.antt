-- ===== src/Memory/Kept.antt =====
-- memory/in_memory.py: a saved state until it is saved again or deleted.
use enterprise_multi_agent_o.Base.{
  String, ◌≡◌, refl, Bool, false, some, List, [], ◌∷◌, ◌==◌, ◌∙◌, string_eq, arith, ==-self,
  Option-cases,
}
use enterprise_multi_agent_o.Base.Lists.{All}
use enterprise_multi_agent_o.Base.Dict.{lookup, lookup-insert, lookup-erase}
use enterprise_multi_agent_o.Core.State.{OrchestrationState}
use enterprise_multi_agent_o.Memory.{
  StateStore, save_state, get_state, save_checkpoint, delete_run, delete_state, delete_checkpoints,
}
use enterprise_multi_agent_o.Memory.Spec.{
  Call, saving_state, getting_state, saving_checkpoint, getting_checkpoint, listing, deleting, call,
}

-- The calls that change the latest state of a run.
abbrev pub touches : String → Call → Bool
touches r (saving_state s) = r == s.run_id
touches r (deleting q) = r == q
touches r _ = false

-- The store after the calls.
unfoldable pub after : List Call → StateStore → StateStore
unfolding call
after [] store = store
after (c ∷ calls) store = after calls (call c store).1

call-keeps :
    (r : String) (c : Call) (store : StateStore)
    → touches r c ≡ false
    → get_state r (call c store).1 ≡ get_state r store
unfolding call get_state save_state save_checkpoint delete_run delete_state delete_checkpoints
call-keeps r (saving_state s) store h = ground (arith, h, lookup-insert r s.run_id s store.states)
call-keeps r (getting_state q) store h = refl
call-keeps r (saving_checkpoint cp) store h = refl
call-keeps r (getting_checkpoint i) store h = refl
call-keeps r (listing q) store h = refl
call-keeps r (deleting q) store h = ground (
  arith,
  h,
  lookup-erase r q store.states,
  Option-cases (lookup q store.states),
  Option-cases (lookup q store.run_checkpoints),
)

after-keeps :
    (r : String) (calls : List Call) (store : StateStore)
    → All (λ c. touches r c ≡ false) calls
    → get_state r (after calls store) ≡ get_state r store
unfolding after
after-keeps r [] store h = refl
after-keeps r (c ∷ calls) store h =
    after-keeps r calls (call c store).1 h.1 ∙ call-keeps r c store h.0

-- After a state is saved and any calls that neither save a state of its run nor delete its run,
-- get_state of its run answers the saved state.
pub get_state-saved :
    (s : OrchestrationState) (calls : List Call) (store : StateStore)
    → All (λ c. touches s.run_id c ≡ false) calls
    → get_state s.run_id (after calls (save_state s store)) ≡ some s
unfolding get_state save_state
get_state-saved s calls store h =
    after-keeps s.run_id calls (save_state s store) h
    ∙ ground (arith, lookup-insert s.run_id s.run_id s store.states, ==-self s.run_id)
