-- ===== src/Container/Cargo.antt =====
-- Starting and updating a cargo: `start` and `update` of bin/nanocld/src/utils/container/cargo.rs.
pub mod Updated
use nanocl.Prelude.{
  ℕ, zero, suc, show, ◌==◌, Text, codes, Bool, true, false, Option, none, some, is_none, is_empty,
  List, [], ◌∷◌, ◌++◌, map, unwrap_or, if◌then◌else◌,
}
use nanocl.Io.{IoError, ErrorKind, Result, ok, err, with_context}
use nanocl.System.Status.{ObjPsStatusKind}
use nanocl.System.Action.{NativeEventAction}
use nanocl.Process.{Process, ProcessKind, ExitCode, natural, negative}
use nanocl.Workload.{Cargo, Config, cargo_actor}
use nanocl.Statefile.Objects.{ReplicationMode, static}
use nanocl.Effect.{Effect, pure, raise, reading, ignoring, run_all, ◌>>=◌, ◌>>◌}
use nanocl.Backend.{Backend, start_container, stop_container, rename_container}
use nanocl.Status.Table.{update_actual_status}
use nanocl.SystemState.{emit_normal_native_action_sync}
use nanocl.Container.Process.{docker_in, delete_instances, start_instances, not_init}
use nanocl.Container.Create.{Builder, WaitItem, exited, wait_failed, create_init_container, create}

abbrev is_init : Text × Text
is_init = (codes "io.nanocl.init-c", codes "true")

abbrev unknown_error : Text
unknown_error = codes "Unknown error"

abbrev interrupted : Text → IoError
interrupted m = with_context ErrorKind.interrupted (codes "InitContainer") m

abbrev pub is_success : ExitCode → Bool
is_success (natural n) = n == 0
is_success (negative _) = false

abbrev show_code : ExitCode → Text
show_code (natural n) = show n
show_code (negative n) = codes "-" ++ show (suc n)

-- the loop over the results of waiting
unfoldable pub wait_init : List WaitItem → Result (Unit {0})
wait_init [] = ok tt
wait_init (wait_failed m ∷ items) = err (interrupted m)
wait_init (exited code error ∷ items) =
    let rest = wait_init items in
    if is_success code
    then rest
    else err (
        interrupted
          (unwrap_or (unwrap_or error none) unknown_error ++ (codes " " ++ show_code code)))

abbrev pub replicas : Option ReplicationMode → ℕ
replicas (some (static number)) = number
replicas _ = 1

abbrev pub tmp_name : Text → Text
tmp_name name = codes "tmp-" ++ name

abbrev pub is_restarting : Process → Bool
is_restarting process = elim process.state [
  | none ↦ false
  | some state ↦ unwrap_or state.restarting false
]

module _ {World : Type 0} (b : Backend World) where
  abbrev pub stop_if : Bool → Text → Effect World (Unit {0})
  stop_if true name = docker_in b (codes "StopContainer") (stop_container name)
  stop_if false name = pure tt

  -- an old instance gets another name
  unfoldable pub flag_instance : Process → Effect World (Unit {0})
  flag_instance process =
      stop_if (is_restarting process) process.name
      >> docker_in b (codes "RenameContainer")
          (rename_container process.key (tmp_name process.name))

  unfoldable pub unflag_instance : Process → Effect World (Unit {0})
  unflag_instance process =
      docker_in b (codes "RenameContainer") (rename_container process.key process.name)

  -- the `match` on the start of the new instances; the result is what is spawned
  abbrev pub after_start :
      List Process → List Process → Result (Unit {0}) → Effect World (Effect World (Unit {0}))
  after_start processes new_instances (err _) = do
    ignoring (delete_instances b (map (λ p. p.key) new_instances))
    ignoring (run_all unflag_instance processes)
    pure (pure tt)
  after_start processes new_instances (ok _) =
      pure (ignoring (delete_instances b (map (λ p. p.key) processes)))

module _ {World : Type 0} (b : Backend World) (u : Builder World) where
  unfoldable pub start_init_container : Process → Effect World (Unit {0})
  start_init_container process =
      docker_in b (codes "InitContainer") (start_container process.name)
      >> (λ w. let (items, w') = u.wait_container process.name w in (wait_init items, w'))

  abbrev pub new_init : Cargo → Option Config → Effect World (Unit {0})
  new_init cargo none = pure tt
  new_init cargo (some init_container) =
      create_init_container b u cargo init_container >>= start_init_container

  -- the init container that is there, or a new one
  abbrev pub init_again : Cargo → Option Config → List Process → Effect World (Unit {0})
  init_again cargo none init_process = pure tt
  init_again cargo (some init_container) [] = new_init cargo (some init_container)
  init_again cargo (some init_container) (process ∷ _) = start_init_container process

  abbrev pub create_unless_there : Cargo → List Process → Effect World (Unit {0})
  create_unless_there cargo [] = create b u cargo (replicas cargo.replication) >> pure tt
  create_unless_there cargo (_ ∷ _) = pure tt

  unfoldable pub start : Text → Effect World (Unit {0})
  start key = do
    cargo ← reading (b.read_cargo key)
    processes ← reading (b.read_processes cargo.cargo_key (some not_init))
    init_process ← reading (b.read_processes cargo.cargo_key (some is_init))
    init_again cargo cargo.init_container init_process
    create_unless_there cargo processes
    start_instances b cargo.cargo_key ProcessKind.cargo

  -- The result is the future that is spawned to delete the old instances after four seconds, or
  -- none.
  unfoldable pub update : Text → Effect World (Effect World (Unit {0}))
  update key = do
    cargo ← reading (b.read_cargo key)
    processes ← reading (b.read_processes key none)
    run_all (flag_instance b) processes
    new_init cargo cargo.init_container
    new_instances ← create b u cargo (replicas cargo.replication)
    spawned ← λ w.
        let (started, w') = start_instances b key ProcessKind.cargo w in
        after_start b processes new_instances started w'
    update_actual_status b key ObjPsStatusKind.start
    emit_normal_native_action_sync b (cargo_actor cargo) NativeEventAction.start
    pure spawned
