-- ===== src/Tests/Specs.antt =====
-- Specifications of cargoes that are put and patched.
use nanocl.Prelude.{codes, true, none, some, [], ◌∷◌, ◌≡◌}
use nanocl.Io.{Result, ok, err, with_context, ErrorKind}
use nanocl.Status.{from_partial}
use nanocl.Workload.{Cargo}
use nanocl.Statefile.Objects.{CargoSpecPartial, VmSpecPartial, static}
use nanocl.Container.Cargo.{replicas}
use nanocl.Objects.Specs.{Repositories, SpecDb, daemon}
use nanocl.Objects.Cargoes.{CargoSpecUpdate, patched}
use nanocl.Objects.Cargoes.Put.{Put}
use nanocl.Objects.Cargoes.Patched.{own, nothing, patched-secrets}
use nanocl.Tests.Memory.{Memory, world, started, web}

-- the stored form of a specification
pub data Stored : Type 0 where
  stored_cargo : CargoSpecPartial daemon → Stored
  stored_vm : VmSpecPartial daemon → Stored

cargo_from : Stored → Result (CargoSpecPartial daemon)
cargo_from (stored_cargo x) = ok x
cargo_from (stored_vm _) = err (with_context ErrorKind.invalid_data (codes "Spec") (codes "vm"))

vm_from : Stored → Result (VmSpecPartial daemon)
vm_from (stored_vm x) = ok x
vm_from (stored_cargo _) = err (with_context ErrorKind.invalid_data (codes "Spec") (codes "cargo"))

unfoldable pub repositories : Repositories Memory Stored
unfolding cargo_from vm_from
repositories = record {
  is_alphanumeric = λ c. true;
  new_v4 = λ w. (codes "1", w);
  cargo_to_value = λ x. ok (stored_cargo x);
  cargo_from_value = cargo_from;
  vm_to_value = λ x. ok (stored_vm x);
  vm_from_value = vm_from;
  create_spec = λ x w. (ok x, w);
  create_status = λ p w. (ok (from_partial 0 p), w);
  create_cargo = λ x w. (ok x, w);
  create_vm = λ x w. (ok x, w);
  update_cargo = λ key name spec_key w. (ok tt, w);
  update_vm = λ key name spec_key w. (ok tt, w);
  read_spec_of = λ key w. err (with_context ErrorKind.not_found (codes "Spec") (codes "no row"));
}

stored_of : Result Stored → Stored → Stored
stored_of (ok s) _ = s
stored_of (err _) s = s

row_of : Result (SpecDb Stored) → SpecDb Stored → SpecDb Stored
row_of (ok s) _ = s
row_of (err _) s = s

abbrev ready : Memory
ready = world [] started

patched-secrets_example :
    let cargo : Cargo = record web { replication = some (static 3) } in
    let spec : CargoSpecUpdate = record nothing { secrets = some (codes "tls" ∷ []) } in
    (patched cargo spec
      ≡ record (own cargo) { secrets = some (codes "tls" ∷ []); replication = none })
    × (replicas (patched cargo spec).replication ≡ 1)
patched-secrets_example =
    patched-secrets (record web { replication = some (static 3) }) (codes "tls" ∷ [])
