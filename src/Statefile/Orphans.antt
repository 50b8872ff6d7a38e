-- ===== src/Statefile/Orphans.antt =====
-- What removing the orphans of a Statefile sends.
use nanocl.Prelude.{Text, true, some, List, map, ◌≡◌, refl}
use nanocl.Effect.{reading}
use nanocl.Statefile.Objects.{Foreign, Secret, Resource, CargoSpec, VmSpec}
use nanocl.Statefile.Objects.Partial.{secret_partial, resource_partial, cargo_partial, vm_partial}
use nanocl.Statefile.{Client, StateRef}
use nanocl.Statefile.Apply.{get_nanocl_group, namespace_of}
use nanocl.Statefile.Remove.{
  RemoveArg, job_arg, cargo_arg, vm_arg, resource_arg, secret_arg, state_remove, orphans,
  remove_orphans,
}
use nanocl.Statefile.Logged.{IsLogged, Grown, SendsOnly, reading-SendsOnly, bind-SendsOnly}
use nanocl.Statefile.Names.{has_name, orphan_new}
use nanocl.Statefile.Removed.{
  names_of, is_defined, may_go, deletion, DeletesNamed, DeletesOrphan, state_remove-SendsOnly,
}

module _ {F : Foreign} {World : Type 0} (c : Client F World) (l : IsLogged c)
    (st : StateRef F) where
  -- Removing a Statefile sends nothing but deletions of the objects that it names.
  pub state_remove-DeletesNamed :
      (w : World) → Grown (DeletesNamed st) (l.sent w) (l.sent (state_remove c st w).1)
  state_remove-DeletesNamed =
      (state_remove-SendsOnly c l (DeletesNamed st) st
        (λ arg n h. (arg, n, some (namespace_of st), refl, h))).run

  orphan_deleted :
      (old_secrets : List (Secret F)) (old_cargoes : List (CargoSpec F)) (old_vms : List (VmSpec F))
      (old_resources : List (Resource F)) (arg : RemoveArg) (n : Text)
      → has_name
          (λ m. m)
          (names_of (orphans st old_secrets old_cargoes old_vms old_resources) arg)
          n
        ≡ true
      → DeletesOrphan st (deletion arg (some (namespace_of st)) n)
  unfolding names_of is_defined may_go
  orphan_deleted ss gs vs rs job_arg n h = (job_arg, n, refl, h)
  orphan_deleted ss gs vs rs cargo_arg n h =
      (cargo_arg, n, refl, orphan_new (λ g. g.name) (map cargo_partial gs) st.content.cargoes n h)
  orphan_deleted ss gs vs rs vm_arg n h = (
    vm_arg,
    n,
    refl,
    orphan_new (λ v. v.name) (map vm_partial vs) st.content.virtual_machines n h,
  )
  orphan_deleted ss gs vs rs resource_arg n h = (
    resource_arg,
    n,
    refl,
    orphan_new (λ r. r.name) (map resource_partial rs) st.content.resources n h,
  )
  orphan_deleted ss gs vs rs secret_arg n h =
      (secret_arg, n, refl, orphan_new (λ s. s.name) (map secret_partial ss) st.content.secrets n h)

  remove_orphans-SendsOnly : SendsOnly c l (DeletesOrphan st) (remove_orphans c st)
  unfolding remove_orphans
  remove_orphans-SendsOnly =
      let P = DeletesOrphan st in
      let group = get_nanocl_group st in
      bind-SendsOnly c l P (reading (c.list_secret group)) _ (reading-SendsOnly c l P _) λ ss.
        bind-SendsOnly c l P (reading (c.list_cargo group st.content.namespace)) _
          (reading-SendsOnly c l P _)
          λ gs.
            bind-SendsOnly c l P (reading (c.list_vm group st.content.namespace)) _
              (reading-SendsOnly c l P _)
              λ vs.
                bind-SendsOnly c l P (reading (c.list_resource group)) _ (reading-SendsOnly c l P _)
                  λ rs. state_remove-SendsOnly c l P _ (orphan_deleted ss gs vs rs)

  -- Removing the orphans of a Statefile sends nothing but deletions of objects that it does not
  -- name, of the sorts that it has a list of, and of the jobs that it names; those of cargoes are in
  -- its namespace.
  pub remove_orphans-DeletesOrphan :
      (w : World) → Grown (DeletesOrphan st) (l.sent w) (l.sent (remove_orphans c st w).1)
  remove_orphans-DeletesOrphan = remove_orphans-SendsOnly.run
