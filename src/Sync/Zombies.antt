-- ===== src/Sync/Zombies.antt =====
-- Which rows of processes are deleted when the daemon starts.
use nanocl.Prelude.{
  Text, codes, ◌=ₜ◌, Bool, not, ◌&&◌, any, retain, Option, none, some, List, [], ◌∷◌, ◌++◌,
  append_assoc, append-nil, ◌≡◌, sym, ap, ◌∙◌, inl, inr, unwrap_or,
}
use nanocl.Io.{IoError, Result, ok, err, Result-cases}
use nanocl.Backend.{Backend}
use nanocl.Objects.Specs.{Repositories}
use nanocl.Sync.{ContainerSummary, Node, owner, labels_of, sync_process}
use nanocl.Sync.Processes.{
  Progress, sync_owned, sync_object, sync_containers, sync_processes, nothing_synced,
}

-- a row of the table of processes: its key and its node
pub record Row : Type 0 where
  pub key : Text
  pub node : Text

abbrev one_if : Option (Text × Text) → Text → List Text
one_if none id = []
one_if (some _) id = id ∷ []

-- the containers of the list that have the labels of an object
abbrev pub labelled : List ContainerSummary → List Text
labelled [] = []
labelled (summary ∷ containers) =
    one_if (owner (labels_of summary)) (unwrap_or summary.id []) ++ labelled containers

abbrev pub stays : Text → List Text → Row → Bool
stays node ids row = not (row.node =ₜ node && not (any (λ id. id =ₜ row.key) ids))

-- The rows of the table, and what a deletion leaves of them if it succeeds.
pub record IsSweep {World Data : Type 0} (n : Node World Data) : Type 0 where
  pub rows : World → List Row
  pub deleted :
      (node : Text) (ids : List Text) (w : World)
      → (n.delete_others node ids w).0 ≡ ok tt
      → rows (n.delete_others node ids w).1 ≡ retain (stays node ids) (rows w)

module _ {World Data Stored : Type 0} (b : Backend World) (n : Node World Data)
    (r : Repositories World Stored) where
  ids_of : Result Progress → Progress → List Text
  ids_of (ok p) _ = p.ids
  ids_of (err _) p = p.ids

  sync_owned-ids :
      (id : Text) (o : Option (Text × Text)) (p q : Progress) (w : World)
      → (sync_owned b n r id o p w).0 ≡ ok q
      → q.ids ≡ p.ids ++ one_if o id
  unfolding ids_of
  sync_owned-ids id none p q w h = sym (ap (λ z. ids_of z q) h) ∙ sym (append-nil p.ids)
  sync_owned-ids id (some (kind, key)) p q w h = elim (Result-cases (n.inspect id w)) [
    | inr (e, k) ↦ cc (rw k at h)
    | inl (container, k) ↦ elim (Result-cases (sync_process b n key kind container w).0) [
      | inr (e, s) ↦ cc (rw (k, s) at h)
      | inl (_, s) ↦
          let w1 = (sync_process b n key kind container w).1 in
          elim (Result-cases
            (sync_object b n r (kind =ₜ codes "cargo") key container p.inspected w1).0) [
              | inr (e, c) ↦ cc (rw (k, s, c) at h)
              | inl (inspected, c) ↦ sym (ap (λ z. ids_of z q) (rw (k, s, c) at h))
            ]
    ]
  ]

  sync_containers-ids :
      (containers : List ContainerSummary) (p q : Progress) (w : World)
      → (sync_containers b n r containers p w).0 ≡ ok q
      → q.ids ≡ p.ids ++ labelled containers
  unfolding sync_containers ids_of
  sync_containers-ids [] p q w h = sym (ap (λ z. ids_of z q) h) ∙ sym (append-nil p.ids)
  sync_containers-ids (summary ∷ containers) p q w h =
      let id = unwrap_or summary.id [] in
      let o = owner (labels_of summary) in
      elim (Result-cases (sync_owned b n r id o p w).0) [
        | inr (e, k) ↦ cc (rw k at h)
        | inl (p', k) ↦
            sync_containers-ids containers p' q (sync_owned b n r id o p w).1 (rw k at h)
            ∙ ap (λ l. l ++ labelled containers) (sync_owned-ids id o p p' w k)
            ∙ append_assoc p.ids (one_if o id) (labelled containers)
      ]

  module _ (s : IsSweep n) (w : World) where
    -- the synchronisation of the containers of a list
    abbrev run : List ContainerSummary → Result Progress × World
    run containers = sync_containers b n r containers nothing_synced w

    abbrev delete : List ContainerSummary → Result (Unit {0}) × World
    delete containers = n.delete_others b.hostname (labelled containers) (run containers).1

    -- The outcomes of the synchronisation of all containers: they could not be listed; one failed,
    -- and the deletion is not tried; the deletion of those that no labelled container has failed; or
    -- exactly the rows of other nodes and of labelled containers are left.
    pub data Synced : Result (Unit {0}) → World → Type 0 where
      unlisted : (e : IoError) → n.list_containers w ≡ err e → Synced (err e) w
      stopped :
          (containers : List ContainerSummary) (e : IoError)
          → n.list_containers w ≡ ok containers
          → (run containers).0 ≡ err e
          → Synced (err e) (run containers).1
      undeleted :
          (containers : List ContainerSummary) (p : Progress) (e : IoError)
          → n.list_containers w ≡ ok containers
          → (run containers).0 ≡ ok p
          → (delete containers).0 ≡ err e
          → Synced (err e) (delete containers).1
      swept :
          (containers : List ContainerSummary) (p : Progress) (after : World)
          → n.list_containers w ≡ ok containers
          → (run containers).0 ≡ ok p
          → s.rows after
            ≡ retain (stays b.hostname (labelled containers)) (s.rows (run containers).1)
          → Synced (ok tt) after

    deleted-Synced :
        (containers : List ContainerSummary) (p : Progress)
        → n.list_containers w ≡ ok containers
        → (run containers).0 ≡ ok p
        → Synced (delete containers).0 (delete containers).1
    deleted-Synced containers p h k = elim (Result-cases (delete containers).0) [
      | inr (e, d) ↦ rw d (undeleted containers p e h k d)
      | inl (_, d) ↦ rw d (
          swept containers p _ h k
            (s.deleted b.hostname (labelled containers) (run containers).1 d))
    ]

    -- The synchronisation of all containers ends in one of these ways.
    pub sync_processes-Synced : Synced (sync_processes b n r w).0 (sync_processes b n r w).1
    unfolding sync_processes
    sync_processes-Synced = elim (Result-cases (n.list_containers w)) [
      | inr (e, h) ↦ rw h (unlisted e h)
      | inl (containers, h) ↦ elim (Result-cases (run containers).0) [
        | inr (e, k) ↦ rw (h, k) (stopped containers e h k)
        | inl (p, k) ↦
            rw (h, k, sync_containers-ids containers nothing_synced p w k)
              (deleted-Synced containers p h k)
      ]
    ]
