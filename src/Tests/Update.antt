-- ===== src/Tests/Update.antt =====
-- Updates of a cargo that succeed and fail.
use nanocl.Prelude.{codes, ◌=ₜ◌, true, none, some, [], ◌∷◌, retain, ◌≡◌, refl}
use nanocl.Io.{IoError, Result, ok, err, with_context, ErrorKind}
use nanocl.Process.{Process, ContainerState}
use nanocl.Effect.{Effect, pure, run_all, run_ordered, for_each}
use nanocl.Backend.{remove_container}
use nanocl.Container.Process.Reports.{add_calls}
use nanocl.Container.Process.{docker_in, start_instances}
use nanocl.System.Status
use nanocl.SystemState.{emit_normal_native_action_sync}
use nanocl.Status.Table.{update_actual_status}
use nanocl.Container.Generic.{emit}
use nanocl.Container.Create.{Builder, create, create_instance, create_process}
use nanocl.Container.Create.Unseen.{IsQuiet}
use nanocl.Container.Cargo.{update, flag_instance, after_start}
use nanocl.Container.Cargo.Updated.{
  flag_calls, rollback_calls, reported, cleanup, starting, creation, update-create_failed,
  update-start_failed, update-started,
}
use nanocl.Tests.Memory.{
  Memory, memory, memory-IsLawful, find, world, process, started, web, web_key,
}

abbrev refused : IoError
refused = with_context ErrorKind.other (codes "Image") (codes "not found")

-- containers are made of the processes that are there; with what pulling an image returns
abbrev pub builder : Result (Unit {0}) → Builder Memory
builder pulled = record {
  gateway = codes "10.0.0.1";
  inject_data = λ cargo w. ok cargo;
  download = λ image secret policy w. (pulled, w);
  load_env_secrets = λ secrets w. ok [];
  create_tls_secrets = λ key kind secrets w. (ok [], w);
  generate_short_id = λ w. (codes "a", w);
  create_container = λ name config w. (ok name, w);
  create_from = λ id name kind p node key w. (ok p, w);
  wait_container = λ name w. ([], w);
}

builder-IsQuiet : (pulled : Result (Unit {0})) → IsQuiet memory memory-IsLawful (builder pulled)
builder-IsQuiet pulled = record {
  download_see = λ image secret policy w. refl;
  secrets_see = λ key kind secrets w. refl;
  id_see = λ w. refl;
  create_see = λ name config w. refl;
  create_from_see = λ id name kind p node key w. refl;
  wait_see = λ name w. refl;
}

abbrev looping : ContainerState
looping = record {
  restarting = some true;
  running = none;
  finished_at = none;
  exit_code = none;
  error = none;
}

abbrev web_a : Process
web_a = process (codes "web-a.global.c") web_key looping

abbrev before : Memory
before = world (web_a ∷ []) started

-- a daemon that has no row for the statuses of the cargo
abbrev rowless : Memory
rowless = record before { seen = record (before.seen) { rows = λ _. none } }

abbrev no_row : IoError
no_row = with_context ErrorKind.not_found (codes "Memory") (codes "no such row")

update-create_failed_example :
    ((update memory (builder (err refused)) web_key before).0 ≡ err refused)
    × (memory-IsLawful.see (update memory (builder (err refused)) web_key before).1
        ≡ add_calls (flag_calls (web_a ∷ [])) (memory-IsLawful.see before))
unfolding memory find retain ◌=ₜ◌ run_all flag_instance docker_in create
update-create_failed_example =
    update-create_failed memory memory-IsLawful (builder (err refused))
      (builder-IsQuiet (err refused)) web_key before web (web_a ∷ []) refused refl refl refl refl
      refl

abbrev pub fine : Builder Memory
fine = builder (ok tt)

pub fine-IsQuiet : IsQuiet memory memory-IsLawful fine
fine-IsQuiet = builder-IsQuiet (ok tt)

module _ (w : Memory) where
  abbrev started_of : Result (Unit {0}) × Memory
  started_of = starting memory memory-IsLawful fine fine-IsQuiet web_key w web (web_a ∷ [])

  abbrev last_of : Effect Memory (Unit {0}) → Effect Memory (Effect Memory (Unit {0}))
  last_of = reported memory memory-IsLawful fine fine-IsQuiet web_key w web (web_a ∷ [])

update-start_failed_example :
    (update memory fine web_key rowless
      ≡ last_of rowless
          (pure tt)
          (after_start memory (web_a ∷ []) (web_a ∷ []) (err no_row) (started_of rowless).1).1)
    × (memory-IsLawful.see
          (after_start memory (web_a ∷ []) (web_a ∷ []) (err no_row) (started_of rowless).1).1
        ≡ add_calls
            (rollback_calls (web_a ∷ []) (web_a ∷ []))
            (memory-IsLawful.see (started_of rowless).1))
unfolding memory find retain ◌=ₜ◌ run_all for_each flag_instance docker_in create run_ordered
    create_instance create_process start_instances update_actual_status
update-start_failed_example =
    update-start_failed memory memory-IsLawful fine fine-IsQuiet web_key rowless web (web_a ∷ [])
      (web_a ∷ []) no_row refl refl refl refl refl refl

update-started_example :
    (memory-IsLawful.see
        (creation memory memory-IsLawful fine fine-IsQuiet web_key before web (web_a ∷ [])).1
      ≡ add_calls (flag_calls (web_a ∷ [])) (memory-IsLawful.see before))
    × (update memory fine web_key before
        ≡ last_of before
            (cleanup memory memory-IsLawful fine fine-IsQuiet web_key before web (web_a ∷ []))
            (started_of before).1)
    × ((v : Memory)
        → memory-IsLawful.see
            (cleanup memory memory-IsLawful fine fine-IsQuiet web_key before web (web_a ∷ []) v).1
          ≡ add_calls (remove_container (codes "web-a.global.c") true ∷ []) (memory-IsLawful.see v))
unfolding memory find retain ◌=ₜ◌ run_all for_each flag_instance docker_in create run_ordered
    create_instance create_process start_instances update_actual_status emit Status.to_string
    emit_normal_native_action_sync
update-started_example =
    update-started memory memory-IsLawful fine fine-IsQuiet web_key before web (web_a ∷ [])
      (web_a ∷ []) refl refl refl refl refl refl
