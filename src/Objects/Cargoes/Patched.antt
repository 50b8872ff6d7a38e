-- ===== src/Objects/Cargoes/Patched.antt =====
-- What a patch makes of the specification of a cargo.
use nanocl.Prelude.{
  Text, ◌=ₜ◌, =ₜ_sound, subst, true, ◌||◌, any, none, some, List, [], ◌∷◌, ◌++◌, ◌≡◌, refl, ◌∙◌,
  sym, arith, inl, inr, Bool-cases, append_assoc, append-nil,
}
use nanocl.Workload.{Cargo}
use nanocl.Statefile.Objects.{CargoSpecPartial}
use nanocl.Container.Cargo.{replicas}
use nanocl.Objects.Specs.{daemon}
use nanocl.Objects.Cargoes.{CargoSpecUpdate, patched, patched_container, merge_volumes}

-- the specification of a cargo as it is
abbrev pub own : Cargo → CargoSpecPartial daemon
own cargo = record {
  name = cargo.name;
  container = cargo.container;
  init_container = cargo.init_container;
  replication = cargo.replication;
  secrets = cargo.secrets;
  metadata = cargo.metadata;
  image_pull_secret = cargo.image_pull_secret;
  image_pull_policy = cargo.image_pull_policy;
}

-- a patch that gives nothing
abbrev pub nothing : CargoSpecUpdate
nothing = record {
  name = none;
  metadata = none;
  init_container = none;
  secrets = none;
  image_pull_secret = none;
  image_pull_policy = none;
  container = none;
  replication = none;
}

-- A patch that gives nothing but secrets keeps all but the replication: whatever number of
-- instances the cargo had, it has one afterwards.
pub patched-secrets :
    (cargo : Cargo) (secrets : List Text)
    → (patched cargo (record nothing { secrets = some secrets })
        ≡ record (own cargo) { secrets = some secrets; replication = none })
      × (replicas (patched cargo (record nothing { secrets = some secrets })).replication ≡ 1)
unfolding patched patched_container
patched-secrets cargo secrets = (refl, refl)

any-append :
    (v : Text) (xs ys : List Text)
    → any (λ x. x =ₜ v) (xs ++ ys) ≡ (any (λ x. x =ₜ v) xs || any (λ x. x =ₜ v) ys)
unfolding any
any-append v [] ys = refl
any-append v (x ∷ xs) ys = ground (arith, any-append v xs ys)

-- Merging volumes keeps the old ones in front, and adds each of the new ones.
pub merge_volumes-old :
    (volumes new : List Text) → (added : List Text) × (merge_volumes volumes new ≡ volumes ++ added)
unfolding merge_volumes
merge_volumes-old volumes [] = ([], sym (append-nil volumes))
merge_volumes-old volumes (v ∷ new) = elim (Bool-cases (any (λ x. x =ₜ v) volumes)) [
  | inl h ↦ let (added, e) = merge_volumes-old volumes new in (added, rw h e)
  | inr h ↦
      let (added, e) = merge_volumes-old (volumes ++ v ∷ []) new in
      (v ∷ added, rw h (e ∙ append_assoc volumes (v ∷ []) added))
]

pub merge_volumes-new :
    (volumes new : List Text) (v : Text)
    → (any (λ x. x =ₜ v) volumes || any (λ x. x =ₜ v) new) ≡ true
    → any (λ x. x =ₜ v) (merge_volumes volumes new) ≡ true
unfolding merge_volumes any
merge_volumes-new volumes [] v h = ground arith
merge_volumes-new volumes (u ∷ new) v h = elim (Bool-cases (any (λ x. x =ₜ u) volumes)) [
  | inr k ↦
      rw k (
        merge_volumes-new (volumes ++ u ∷ []) new v (ground (arith, any-append v volumes (u ∷ []))))
  | inl k ↦ rw k (
      merge_volumes-new volumes new v (elim (Bool-cases (u =ₜ v)) [
        | inl j ↦ ground (arith, subst (λ y. any (λ x. x =ₜ y) volumes ≡ true) (=ₜ_sound u v j) k)
        | inr j ↦ ground arith
      ]))
]
