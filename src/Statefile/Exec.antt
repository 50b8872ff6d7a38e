-- ===== src/Statefile/Exec.antt =====
-- The loops of exec_state_apply and exec_state_remove of bin/nanocl/src/commands/state.rs over the
-- Statefiles that were parsed.
use nanocl.Prelude.{Bool, List, if◌then◌else◌}
use nanocl.Effect.{Effect, ◌>>◌, for_each}
use nanocl.Statefile.Objects.{Foreign}
use nanocl.Statefile.{Client, StateRef}
use nanocl.Statefile.Apply.{state_apply}
use nanocl.Statefile.Remove.{state_remove, remove_orphans}

module _ {F : Foreign} {World : Type 0} (c : Client F World) where
  unfoldable pub apply_states : Bool → Bool → List (StateRef F) → Effect World (Unit {0})
  apply_states reload orphans states =
      for_each
        (λ state w.
          if orphans
          then (remove_orphans c state >> state_apply c reload state) w
          else state_apply c reload state w)
        states

  unfoldable pub remove_states : List (StateRef F) → Effect World (Unit {0})
  remove_states states = for_each (state_remove c) states
