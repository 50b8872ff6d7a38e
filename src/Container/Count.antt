-- ===== src/Container/Count.antt =====
-- `count_status` of bin/nanocld/src/utils/container/generic.rs.
pub mod Meaning
use nanocl.Prelude.{
  ℕ, ◌+◌, zero, Text, codes, ◌=ₜ◌, Bool, true, false, Option, none, some, List, [], ◌∷◌, length,
  is_empty, if◌then◌else◌, unwrap_or,
}
use nanocl.Process.{Process, ContainerState, ExitCode, natural, negative}

-- `ContainerState::default()`
abbrev pub default_state : ContainerState
default_state = record {
  restarting = none;
  running = none;
  finished_at = none;
  exit_code = none;
  error = none;
}

pub record Counts : Type 0 where
  pub failed : ℕ
  pub success : ℕ
  pub running : ℕ

abbrev pub is_zero : ExitCode → Bool
is_zero (natural zero) = true
is_zero _ = false

count_exit : Option ExitCode → Counts → Counts
count_exit none c = c
count_exit (some code) c =
    if is_zero code
    then record c { success = c.success + 1 }
    else record c { failed = c.failed + 1 }

count_error : Option Text → Counts → Counts
count_error none c = c
count_error (some error) c = if is_empty error then c else record c { failed = c.failed + 1 }

-- the time that Docker gives a container which has not finished yet
abbrev pub never : Text
never = codes "0001-01-01T00:00:00Z"

-- `finished_at.unwrap()` panics on `None`
count_finished : ContainerState → Option Text → Counts → Option Counts
count_finished state none c = none
count_finished state (some finished_at) c =
    if finished_at =ₜ never
    then some (record c { running = c.running + 1 })
    else some (count_error state.error (count_exit state.exit_code c))

-- one round of the loop; `none` is a panic
count_instance : Process → Counts → Option Counts
unfolding count_finished count_error count_exit
count_instance instance c =
    let state = unwrap_or instance.state default_state in
    if unwrap_or state.restarting false
    then some (record c { failed = c.failed + 1 })
    else if unwrap_or state.running false
    then some (record c { running = c.running + 1 })
    else count_finished state state.finished_at c

count_from : Counts → List Process → Option Counts
count_from c [] = some c
count_from c (p ∷ ps) = elim (count_instance p c) [ none ↦ none | some c' ↦ count_from c' ps ]

abbrev with_total : ℕ → Option Counts → Option (ℕ × ℕ × ℕ × ℕ)
with_total n none = none
with_total n (some c) = some (n, c.failed, c.success, c.running)

-- (total, failed, success, running), or a panic
unfoldable pub count_status : List Process → Option (ℕ × ℕ × ℕ × ℕ)
unfolding count_from count_instance
count_status instances =
    with_total (length instances)
      (count_from (record { failed = 0; success = 0; running = 0 }) instances)
