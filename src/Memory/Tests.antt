-- ===== src/Memory/Tests.antt =====
-- A state store with a run that is saved, read and deleted.
use enterprise_multi_agent_o.Base.{String, ◌≡◌, refl, List, [], ◌∷◌, none, some, false, string_eq}
use enterprise_multi_agent_o.Core.State.{OrchestrationState, create_initial}
use enterprise_multi_agent_o.Base.Lists.{All}
use enterprise_multi_agent_o.Memory.{Checkpoint, new_store, get_state, save_state}
use enterprise_multi_agent_o.Memory.Kept.{touches, after, get_state-saved}
use enterprise_multi_agent_o.Memory.Spec.{
  Call, saving_state, getting_state, saving_checkpoint, listing, deleting, getting_checkpoint,
  empty, answers, spec_answers, AreNew, find,
}
use enterprise_multi_agent_o.Memory.Refinement.{answers_refine}

abbrev a_state : String → OrchestrationState
unfolding create_initial
a_state run_id = create_initial 1 run_id "Report on it" none none 3 none

abbrev a_checkpoint : (checkpoint_id run_id : String) → Checkpoint
a_checkpoint checkpoint_id run_id = record {
  checkpoint_id = checkpoint_id;
  run_id = run_id;
  step = 0;
  state = a_state run_id;
  timestamp = 1;
  metadata = [];
}

abbrev calls : List Call
calls =
    saving_state (a_state "r")
    ∷ saving_checkpoint (a_checkpoint "c" "r")
    ∷ saving_checkpoint (a_checkpoint "d" "q")
    ∷ listing "r"
    ∷ deleting "r"
    ∷ getting_state "r"
    ∷ getting_checkpoint "d"
    ∷ []

calls-AreNew : AreNew calls empty
unfolding AreNew find string_eq
calls-AreNew = (tt, (refl, (refl, (tt, (tt, (tt, (tt, tt)))))))

answers_refine_example : answers calls new_store ≡ spec_answers calls empty
answers_refine_example = answers_refine calls calls-AreNew

others-leave : All (λ c. touches "s" c ≡ false) calls
unfolding string_eq a_state
others-leave = (refl, (refl, (refl, (refl, (refl, (refl, (refl, tt)))))))

get_state-saved_example :
    get_state "s" (after calls (save_state (a_state "s") new_store)) ≡ some (a_state "s")
unfolding a_state
get_state-saved_example = get_state-saved (a_state "s") calls new_store others-leave
