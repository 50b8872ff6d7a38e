-- ===== src/Container/Cargo/Updated.antt =====
-- What the update of a cargo leaves.
use nanocl.Prelude.{
  Text, codes, Bool, true, false, none, List, [], ◌∷◌, ◌++◌, append_assoc, map, ◌≡◌, refl, ap, ◌∙◌,
  inl, inr,
}
use nanocl.Io.{IoError, Result, ok, err, Result-cases}
use nanocl.System.Status.{ObjPsStatusKind}
use nanocl.System.Action.{NativeEventAction}
use nanocl.Process.{Process, ProcessKind}
use nanocl.Workload.{Cargo, cargo_actor}
use nanocl.Effect.{Effect, pure, ignoring, run_all, ◌>>◌}
use nanocl.Backend.{Backend, DockerCall, stop_container, rename_container, remove_container}
use nanocl.Backend.Laws.{IsLawful, add_call}
use nanocl.Status.Table.{update_actual_status}
use nanocl.SystemState.{emit_normal_native_action_sync}
use nanocl.Container.Process.{docker_in, delete_instances, start_instances}
use nanocl.Container.Process.Reports.{add_calls}
use nanocl.Container.Delete.Destroyed.{
  add_no_calls, add_calls-add_calls, run_all-calls, delete_instances-see,
}
use nanocl.Container.Create.{Builder, create}
use nanocl.Container.Create.Unseen.{IsQuiet, create-IsUnseen}
use nanocl.Container.Cargo.{
  replicas, tmp_name, new_init, flag_instance, unflag_instance, stop_if, is_restarting, after_start,
  update,
}

abbrev stop_calls : Bool → Text → List DockerCall
stop_calls true name = stop_container name ∷ []
stop_calls false name = []

-- An old instance that restarts over and over is stopped; each gets another name.
abbrev pub flag_calls : List Process → List DockerCall
flag_calls [] = []
flag_calls (p ∷ ps) =
    stop_calls (is_restarting p) p.name
    ++ (rename_container p.key (tmp_name p.name) ∷ flag_calls ps)

-- the deletion of the new instances, and the old names
abbrev pub rollback_calls : List Process → List Process → List DockerCall
rollback_calls ps new =
    map (λ k. remove_container k true) (map (λ p. p.key) new)
    ++ map (λ p. rename_container p.key p.name) ps

module _ {World : Type 0} (b : Backend World) (l : IsLawful b) where
  docker_in-see :
      (context : Text) (x : DockerCall) (w : World)
      → l.see (docker_in b context x w).1 ≡ add_call x (l.see w)
  unfolding docker_in
  docker_in-see context x w = l.docker_see x w

  stop_if-see :
      (stop : Bool) (name : Text) (w : World)
      → l.see (stop_if b stop name w).1 ≡ add_calls (stop_calls stop name) (l.see w)
  stop_if-see true name w = docker_in-see _ _ w
  stop_if-see false name w = add_no_calls (l.see w)

  flag_instances-see :
      (ps : List Process) (w : World)
      → (run_all (flag_instance b) ps w).0 ≡ ok tt
      → l.see (run_all (flag_instance b) ps w).1 ≡ add_calls (flag_calls ps) (l.see w)
  unfolding run_all flag_instance
  flag_instances-see [] w h = add_no_calls (l.see w)
  flag_instances-see (p ∷ ps) w h =
      let stop = stop_if b (is_restarting p) p.name in
      let rename = rename_container p.key (tmp_name p.name) in
      let w' = (stop w).1 in
      let w'' = (docker_in b (codes "RenameContainer") rename w').1 in
      let stops = stop_calls (is_restarting p) p.name in
      let stopped = stop_if-see (is_restarting p) p.name w in
      elim (Result-cases (stop w).0) [
        | inr (e, k) ↦ cc (rw k at h)
        | inl (_, k) ↦ elim (Result-cases (docker_in b (codes "RenameContainer") rename w').0) [
          | inr (e, j) ↦ cc (rw (k, j) at h)
          | inl (_, j) ↦ rw k (
              flag_instances-see ps w'' (rw (k, j) at h)
              ∙ ap (add_calls (flag_calls ps)) (
                  docker_in-see _ rename w'
                  ∙ ap (add_call rename) stopped
                  ∙ add_calls-add_calls stops (rename ∷ []) (l.see w))
              ∙ add_calls-add_calls (stops ++ rename ∷ []) (flag_calls ps) (l.see w)
              ∙ ap (λ cs. add_calls cs (l.see w))
                  (append_assoc stops (rename ∷ []) (flag_calls ps)))
        ]
      ]

  unflag_instance-see :
      (p : Process) (w : World)
      → l.see (unflag_instance b p w).1 ≡ add_call (rename_container p.key p.name) (l.see w)
  unfolding unflag_instance
  unflag_instance-see p w = docker_in-see _ _ w

  after_start-see :
      (ps new : List Process) (e : IoError) (w : World)
      → l.see (after_start b ps new (err e) w).1 ≡ add_calls (rollback_calls ps new) (l.see w)
  after_start-see ps new e w =
      run_all-calls b l (unflag_instance b) (λ p. rename_container p.key p.name) unflag_instance-see
        ps (delete_instances b (map (λ p. p.key) new) w).1
      ∙ ap (add_calls (map (λ p. rename_container p.key p.name) ps))
          (delete_instances-see b l (map (λ p. p.key) new) w)
      ∙ add_calls-add_calls (map (λ k. remove_container k true) (map (λ p. p.key) new)) _ (l.see w)

  module _ (u : Builder World) (q : IsQuiet b l u) (key : Text) (w : World) (cargo : Cargo)
      (ps : List Process) where
    abbrev pub flagged : World
    flagged = (run_all (flag_instance b) ps w).1

    abbrev pub creation : Result (List Process) × World
    creation = create b u cargo (replicas cargo.replication) flagged

    -- what `update` does last
    abbrev pub reported : Effect World (Unit {0}) → Effect World (Effect World (Unit {0}))
    reported spawned =
        update_actual_status b key ObjPsStatusKind.start
        >> (emit_normal_native_action_sync b (cargo_actor cargo) NativeEventAction.start
            >> pure spawned)

    -- If a cargo without an init container is updated and its old instances were renamed, but the
    -- new ones cannot be created, then the update fails with that error, and Docker was called for
    -- nothing but to stop the instances that restart and to rename them: they keep the names that
    -- mark them for deletion.
    pub update-create_failed :
        (e : IoError)
        → b.read_cargo key w ≡ ok cargo
        → b.read_processes key none w ≡ ok ps
        → cargo.init_container ≡ none
        → (run_all (flag_instance b) ps w).0 ≡ ok tt
        → creation.0 ≡ err e
        → ((update b u key w).0 ≡ err e)
          × (l.see (update b u key w).1 ≡ add_calls (flag_calls ps) (l.see w))
    unfolding update
    update-create_failed e found listed no_init flags failed =
        let init = ap (λ o. new_init b u cargo o flagged) no_init in
        let seen = (create-IsUnseen b l u q cargo (replicas cargo.replication)).run flagged in
        (
          rw (found, listed, flags, init, failed) refl,
          rw (found, listed, flags, init, failed) (seen ∙ flag_instances-see ps w flags),
        )

    abbrev pub starting : Result (Unit {0}) × World
    starting = start_instances b key ProcessKind.cargo creation.1

    -- the future that deletes the old instances
    abbrev pub cleanup : Effect World (Unit {0})
    cleanup = ignoring (delete_instances b (map (λ p. p.key) ps))

    -- If a cargo without an init container is updated, its old instances were renamed, and the new
    -- ones were created, but not all are started, then the new ones are removed, also after a removal
    -- has failed, and the old ones get back their names; and then `start` is reported all the same,
    -- and nothing is spawned.
    pub update-start_failed :
        (new : List Process) (e : IoError)
        → b.read_cargo key w ≡ ok cargo
        → b.read_processes key none w ≡ ok ps
        → cargo.init_container ≡ none
        → (run_all (flag_instance b) ps w).0 ≡ ok tt
        → creation.0 ≡ ok new
        → starting.0 ≡ err e
        → (update b u key w ≡ reported (pure tt) (after_start b ps new (err e) starting.1).1)
          × (l.see (after_start b ps new (err e) starting.1).1
              ≡ add_calls (rollback_calls ps new) (l.see starting.1))
    unfolding update
    update-start_failed new e found listed no_init flags created failed =
        let init = ap (λ o. new_init b u cargo o flagged) no_init in
        (rw (found, listed, flags, init, created, failed) refl, after_start-see ps new e starting.1)

    -- If the new instances are started, then until they were, Docker was called for nothing but to
    -- stop the instances that restart, to rename the old ones, to create the new ones and to start
    -- them; `start` is reported; and only the future that is spawned removes the old ones, each of
    -- them.
    pub update-started :
        (new : List Process)
        → b.read_cargo key w ≡ ok cargo
        → b.read_processes key none w ≡ ok ps
        → cargo.init_container ≡ none
        → (run_all (flag_instance b) ps w).0 ≡ ok tt
        → creation.0 ≡ ok new
        → starting.0 ≡ ok tt
        → (l.see creation.1 ≡ add_calls (flag_calls ps) (l.see w))
          × (update b u key w ≡ reported cleanup starting.1)
          × ((v : World)
              → l.see (cleanup v).1
                ≡ add_calls (map (λ k. remove_container k true) (map (λ p. p.key) ps)) (l.see v))
    unfolding update
    update-started new found listed no_init flags created started =
        let init = ap (λ o. new_init b u cargo o flagged) no_init in
        (
          (create-IsUnseen b l u q cargo (replicas cargo.replication)).run flagged
              ∙ flag_instances-see ps w flags,
          rw (found, listed, flags, init, created, started) refl,
          delete_instances-see b l (map (λ p. p.key) ps),
        )
