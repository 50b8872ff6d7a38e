-- ===== src/Container/Process/Reports.antt =====
-- What the calls on all containers of an object leave.
use nanocl.Prelude.{
  Text, none, some, List, [], ◌∷◌, ◌++◌, map, append_assoc, append-nil, unwrap_or, ◌≡◌, refl, sym,
  ap, subst, codes, ◌∙◌, ◌⊎◌, inl, inr,
}
use nanocl.Io.{IoError, Result, ok, err, Result-cases}
use nanocl.System.Status.{ObjPsStatusKind}
use nanocl.System.Action.{NativeEventAction}
use nanocl.Process.{Process, ProcessKind}
use nanocl.Effect.{for_each, ◌>>◌}
use nanocl.Backend.{Backend, DockerCall, stop_container, start_container}
use nanocl.Backend.Laws.{Seen, IsLawful, add_call}
use nanocl.Status.Table.{
  update_actual_status, IsReported, update_actual_status_lem, update_actual_status-see_err,
}
use nanocl.Container.Generic.{emit}
use nanocl.Container.Generic.Requests.{SendsAction, emit-SendsAction}
use nanocl.Container.Process.{docker_in, stop_instances, start_instances, not_init}

-- `after` is `before` with these calls of Docker
abbrev pub add_calls : List DockerCall → Seen → Seen
add_calls cs s = record s { calls = s.calls ++ cs }

-- Docker was called with a part of the list, in its order.
abbrev CallsSome : List DockerCall → Seen → Seen → Type 0
CallsSome cs before after =
    (made : List DockerCall) × (left : List DockerCall) × (cs ≡ made ++ left)
    × (after ≡ add_calls made before)

append_call :
    (c : DockerCall) (cs : List DockerCall) (s : Seen)
    → add_calls cs (add_call c s) ≡ add_calls (c ∷ cs) s
append_call c cs s = ap (λ calls. record s { calls = calls }) (append_assoc s.calls (c ∷ []) cs)

abbrev Called : List DockerCall → Seen → Result (Unit {0}) → Seen → Type 0
Called cs before r after =
    ((r ≡ ok tt) × (after ≡ add_calls cs before))
    ⊎ ((e : IoError) × (r ≡ err e) × CallsSome cs before after)

module _ {World A : Type 0} (b : Backend World) (l : IsLawful b) (context : Text)
    (c : A → DockerCall) where
  abbrev run : List A → World → Result (Unit {0}) × World
  run = for_each (λ x. docker_in b context (c x))

  pub for_each-docker_in :
      (xs : List A) (w : World) → Called (map c xs) (l.see w) (run xs w).0 (l.see (run xs w).1)
  unfolding for_each docker_in
  for_each-docker_in [] w =
      inl
        (refl, ap (λ calls. record (l.see w) { calls = calls }) (sym (append-nil (l.see w).calls)))
  for_each-docker_in (x ∷ xs) w =
      let first = l.docker_see (c x) w in
      elim (Result-cases (docker_in b context (c x) w).0) [
        | inr (e, h) ↦ inr (e, rw h, (c x ∷ [], map c xs, refl, rw h first))
        | inl (_, h) ↦ elim (for_each-docker_in xs (docker_in b context (c x) w).1) [
          | inl (k, s) ↦ inl (
            rw (h, k),
            rw h (s ∙ ap (add_calls (map c xs)) first ∙ append_call (c x) (map c xs) (l.see w)),
          )
          | inr (e, k, (made, left, m, s)) ↦ inr (
            e,
            rw (h, k),
            (
              c x ∷ made,
              left,
              ap (λ cs. c x ∷ cs) m,
              rw h (s ∙ ap (add_calls made) first ∙ append_call (c x) made (l.see w)),
            ),
          )
        ]
      ]

-- What a run over the containers of an object leaves.
pub data Ended {World : Type 0} (b : Backend World) (key : Text) (status : ObjPsStatusKind)
    (action : NativeEventAction) (cs : List DockerCall) (before : Seen)
    : Result (Unit {0}) → Seen → Type 0 where
  broken :
      (e : IoError) (after : Seen)
      → CallsSome cs before after
      → Ended b key status action cs before (err e) after
  reported :
      (r : Result (Unit {0})) (middle after : Seen)
      → IsReported key status (add_calls cs before) middle
      → SendsAction b action middle after
      → Ended b key status action cs before r after

module _ {World : Type 0} (b : Backend World) (l : IsLawful b) (key : Text)
    (kind : ProcessKind) where
  module _ (context : Text) (c : Process → DockerCall) (status : ObjPsStatusKind)
      (action : NativeEventAction) where
    abbrev spread : List Process → World → Result (Unit {0}) × World
    spread ps =
        for_each (λ p. docker_in b context (c p)) ps
        >> (update_actual_status b key status >> emit b key kind action)

    pub spread-Ended :
        (ps : List Process) (w : World)
        → Ended b key status action (map c ps) (l.see w) (spread ps w).0 (l.see (spread ps w).1)
    spread-Ended ps w = elim (for_each-docker_in b l context c ps w) [
      | inr (e, h, s) ↦ rw h (broken e _ s)
      | inl (h, s) ↦
          let w1 = (for_each (λ p. docker_in b context (c p)) ps w).1 in
          let w2 = (update_actual_status b key status w1).1 in
          elim (Result-cases (update_actual_status b key status w1).0) [
            | inr (e, k) ↦
                rw (h, k)
                  (broken e _ (
                    map c ps,
                    [],
                    sym (append-nil (map c ps)),
                    update_actual_status-see_err b l key status w1 e k ∙ s,
                  ))
            | inl (_, k) ↦
                rw (h, k)
                  (reported _ (l.see w2) _
                    (subst (λ q. IsReported key status q (l.see w2)) s
                      (update_actual_status_lem b l key status w1 k))
                    (emit-SendsAction b l key kind action w2))
          ]
    ]

  module _ (w : World) where
    -- Stopping the containers of an object either fails before anything is reported, after Docker
    -- was called to stop a first part of them, or it reports: then Docker was called to stop each of
    -- them, in their order, the actual status became `stop` and at most one event was sent, `stop`.
    pub stop_instances-Ended :
        (((e : IoError) × (stop_instances b key kind w ≡ (err e, w)))
          ⊎ ((ps : List Process) × (b.read_processes key none w ≡ ok ps)
              × Ended b key ObjPsStatusKind.stop NativeEventAction.stop
                  (map (λ p. stop_container (unwrap_or p.id [])) ps)
                  (l.see w)
                  (stop_instances b key kind w).0
                  (l.see (stop_instances b key kind w).1)))
    unfolding stop_instances
    stop_instances-Ended = elim (Result-cases (b.read_processes key none w)) [
      | inr (e, h) ↦ inl (e, rw h)
      | inl (ps, h) ↦ inr (
        ps,
        h,
        rw h (
            spread-Ended (codes "StopProcess") (λ p. stop_container (unwrap_or p.id []))
              ObjPsStatusKind.stop NativeEventAction.stop ps w),
      )
    ]

    -- The same for starting the containers of an object that are no init containers.
    pub start_instances-Ended :
        (((e : IoError) × (start_instances b key kind w ≡ (err e, w)))
          ⊎ ((ps : List Process) × (b.read_processes key (some not_init) w ≡ ok ps)
              × Ended b key ObjPsStatusKind.start NativeEventAction.start
                  (map (λ p. start_container (unwrap_or p.id [])) ps)
                  (l.see w)
                  (start_instances b key kind w).0
                  (l.see (start_instances b key kind w).1)))
    unfolding start_instances
    start_instances-Ended = elim (Result-cases (b.read_processes key (some not_init) w)) [
      | inr (e, h) ↦ inl (e, rw h)
      | inl (ps, h) ↦ inr (
        ps,
        h,
        rw h (
            spread-Ended (codes "StartProcess") (λ p. start_container (unwrap_or p.id []))
              ObjPsStatusKind.start NativeEventAction.start ps w),
      )
    ]
