-- ===== src/Sync/Processes.antt =====
-- The containers, with their processes and cargoes: sync_processes of utils/system.rs.
use nanocl.Prelude.{
  Text, codes, ◌=ₜ◌, split, Bool, true, false, any, Option, none, some, List, [], ◌∷◌, ◌++◌,
  unwrap_or, decide,
}
use nanocl.Io.{Result, ok, err}
use nanocl.Workload.{Cargo}
use nanocl.Statefile.Objects.{CargoSpecPartial}
use nanocl.Effect.{Effect, pure, reading, ◌>>=◌, ◌>>◌}
use nanocl.Backend.{Backend}
use nanocl.Objects.Specs.{Repositories, daemon, Config-discrete, update_from_cargo_spec}
use nanocl.Objects.Cargoes.{create_cargo}
use nanocl.Sync.{
  ContainerSummary, Inspection, Node, owner, labels_of, bare_spec, register_namespace, sync_process,
  sync_cargo_status, lower, or_skip, config_of, v_version,
}

-- the name and the namespace of the key of a cargo
unfoldable pub name_and_namespace : List Text → Option (Text × Text)
name_and_namespace (name ∷ namespace ∷ []) = some (name, namespace)
name_and_namespace _ = none

-- the keys of the cargoes that were looked at, and the containers that are the daemon's
pub record Progress : Type 0 where
  pub inspected : List Text
  pub ids : List Text

abbrev pub nothing_synced : Progress
nothing_synced = record { inspected = []; ids = [] }

module _ {World Data Stored : Type 0} (b : Backend World) (n : Node World Data)
    (r : Repositories World Stored) where
  abbrev update_unless_equal : Text → CargoSpecPartial daemon → Bool → Effect World (Unit {0})
  update_unless_equal key spec true = pure tt
  update_unless_equal key spec false =
      update_from_cargo_spec b r key spec (v_version b n) >>= λ _. pure tt

  abbrev register_cargo :
      Text → Text → CargoSpecPartial daemon → Inspection Data → Effect World (Unit {0})
  register_cargo name namespace spec container = do
    cargo ←
        lower b n (
          create_cargo b r (record { namespace = namespace; spec = spec; version = v_version b n }))
    sync_cargo_status b n cargo container

  abbrev sync_read :
      Text
      → Text
      → Text
      → CargoSpecPartial daemon
      → Inspection Data
      → Result Cargo
      → Effect World (Unit {0})
  sync_read name namespace key spec container (err _) =
      or_skip b n (register_namespace b n namespace) (register_cargo name namespace spec container)
  sync_read name namespace key spec container (ok cargo) =
      sync_cargo_status b n cargo container
      >> update_unless_equal key spec (decide (Config-discrete cargo.container spec.container))

  unfoldable pub sync_cargo : Text → Text → Text → Inspection Data → Effect World (Unit {0})
  sync_cargo name namespace key container w =
      sync_read name namespace key (bare_spec name (config_of b n container)) container
        (b.read_cargo key w) w

  abbrev sync_new :
      Text → Text → Text → Inspection Data → List Text → Bool → Effect World (List Text)
  sync_new name namespace key container inspected true = pure inspected
  sync_new name namespace key container inspected false =
      sync_cargo name namespace key container >> pure (key ∷ inspected)

  abbrev sync_named :
      Option (Text × Text) → Text → Inspection Data → List Text → Effect World (List Text)
  sync_named none key container inspected = pure inspected
  sync_named (some (name, namespace)) key container inspected =
      sync_new name namespace key container inspected (any (λ k. k =ₜ key) inspected)

  abbrev pub sync_object : Bool → Text → Inspection Data → List Text → Effect World (List Text)
  sync_object true key container inspected =
      sync_named (name_and_namespace (split b'.' key)) key container inspected
  sync_object false key container inspected = pure inspected

  abbrev pub sync_owned : Text → Option (Text × Text) → Progress → Effect World Progress
  sync_owned id none p = pure p
  sync_owned id (some (kind, key)) p = do
    container ← reading (n.inspect id)
    sync_process b n key kind container
    inspected ← sync_object (kind =ₜ codes "cargo") key container p.inspected
    pure (record { inspected = inspected; ids = p.ids ++ id ∷ [] })

  -- the loop over the containers
  unfoldable pub sync_containers : List ContainerSummary → Progress → Effect World Progress
  sync_containers [] p = pure p
  sync_containers (summary ∷ containers) p =
      sync_owned (unwrap_or summary.id []) (owner (labels_of summary)) p
      >>= sync_containers containers

  unfoldable pub sync_processes : Effect World (Unit {0})
  sync_processes = do
    containers ← reading n.list_containers
    p ← sync_containers containers nothing_synced
    n.delete_others b.hostname p.ids
