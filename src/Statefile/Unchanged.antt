-- ===== src/Statefile/Unchanged.antt =====
-- Applying a Statefile whose objects are there as they are wanted.
use nanocl.Prelude.{
  Text, false, decide-yes, decide-cases, Option, none, some, List, [], ◌∷◌, All, ◌≡◌, refl, sym,
  subst, ap, ◌∙◌, inl, inr,
}
use nanocl.Io.{ok}
use nanocl.System.Action.{NativeEventAction}
use nanocl.System.Event.{EventActorKind}
use nanocl.Effect.{Effect, for_each}
use nanocl.Statefile.Objects.{
  Foreign, Secret, SecretPartial, SecretPartial-discrete, Resource, ResourcePartial,
  ResourcePartial-discrete, CargoSpec, CargoSpecPartial, CargoSpecPartial-discrete, VmSpec,
  VmSpecPartial, VmSpecPartial-discrete,
}
use nanocl.Statefile.Objects.Partial.{
  secret_partial, resource_partial, cargo_partial, vm_partial, vm_update,
}
use nanocl.Statefile.{Client, StateRef, patch_vm}
use nanocl.Statefile.Apply.{
  insert_nanocl_group, get_nanocl_group, namespace_of, key_of, waiting, apply_secret, apply_job,
  apply_cargo, apply_vm, apply_resource, each, state_apply,
}

module _ {F : Foreign} {World : Type 0} (c : Client F World) (w : World) where
  -- nothing is changed, and nothing is sent
  abbrev Idle : Effect World (Unit {0}) → Type 0
  Idle m = m w ≡ (ok tt, w)

  abbrev pub Each : {A : Type 0} → (A → Type 0) → Option (List A) → Type 0
  Each P none = Unit
  Each P (some xs) = All P xs

  -- The daemon has the object as the Statefile wants it, with the group in its metadata.
  pub record HasSecret (group : Text) (s : SecretPartial F) : Type 0 where
    pub metadata : F.Value
    pub inserted : insert_nanocl_group F s.metadata group ≡ ok metadata
    pub inspect : Secret F
    pub found : c.inspect_secret s.name w ≡ ok inspect
    pub same : secret_partial inspect ≡ record s { metadata = some metadata }

  pub record HasResource (group : Text) (r : ResourcePartial F) : Type 0 where
    pub metadata : F.Value
    pub inserted : insert_nanocl_group F r.metadata group ≡ ok metadata
    pub inspect : Resource F
    pub found : c.inspect_resource r.name w ≡ ok inspect
    pub same : resource_partial inspect ≡ record r { metadata = some metadata }

  pub record HasCargo (namespace group : Text) (g : CargoSpecPartial F) : Type 0 where
    pub metadata : F.Value
    pub inserted : insert_nanocl_group F g.metadata group ≡ ok metadata
    pub inspect : CargoSpec F
    pub found : c.inspect_cargo g.name (some namespace) w ≡ ok inspect
    pub same : cargo_partial inspect ≡ record g { metadata = some metadata }

  pub record HasVm (namespace group : Text) (v : VmSpecPartial F) : Type 0 where
    pub metadata : F.Value
    pub inserted : insert_nanocl_group F v.metadata group ≡ ok metadata
    pub inspect : VmSpec F
    pub found : c.inspect_vm v.name (some namespace) w ≡ ok inspect
    pub same : vm_partial inspect ≡ record v { metadata = some metadata }

  apply_secret-Idle :
      (group : Text) (s : SecretPartial F) → HasSecret group s → Idle (apply_secret c group s)
  unfolding apply_secret
  apply_secret-Idle group s h =
      rw (h.inserted, h.found, decide-yes (SecretPartial-discrete F _ _) h.same) refl

  apply_resource-Idle :
      (group : Text) (r : ResourcePartial F)
      → HasResource group r
      → Idle (apply_resource c false group r)
  unfolding apply_resource
  apply_resource-Idle group r h =
      rw (h.inserted, h.found, decide-yes (ResourcePartial-discrete F _ _) h.same) refl

  apply_cargo-Idle :
      (namespace group : Text) (g : CargoSpecPartial F)
      → HasCargo namespace group g
      → Idle (apply_cargo c false namespace group g)
  unfolding apply_cargo
  apply_cargo-Idle namespace group g h =
      rw (h.inserted, h.found, decide-yes (CargoSpecPartial-discrete F _ _) h.same) refl

  apply_vm-Idle :
      (namespace group : Text) (v : VmSpecPartial F)
      → HasVm namespace group v
      → Idle (apply_vm c false namespace group v)
  unfolding apply_vm
  apply_vm-Idle namespace group v h =
      rw (h.inserted, h.found, decide-yes (VmSpecPartial-discrete F _ _) h.same) refl

  each-Idle :
      {A : Type 0} (P : A → Type 0) (f : A → Effect World (Unit {0})) (xs : Option (List A))
      → ((x : A) → P x → Idle (f x))
      → Each P xs
      → Idle (each c f xs)
  unfolding for_each
  each-Idle P f none idle h = refl
  each-Idle P f (some []) idle h = refl
  each-Idle P f (some (x ∷ xs)) idle (p, h) = rw (idle x p) (each-Idle P f (some xs) idle h)

  -- A Statefile without jobs whose secrets, cargoes, machines and resources are at the daemon as it
  -- wants them, with the group in their metadata, is applied without a request, and with success,
  -- unless `reload` is set.
  pub state_apply-unchanged :
      (st : StateRef F)
      → st.content.jobs ≡ none
      → Each (HasSecret (get_nanocl_group st)) st.content.secrets
      → Each (HasCargo (namespace_of st) (get_nanocl_group st)) st.content.cargoes
      → Each (HasVm (namespace_of st) (get_nanocl_group st)) st.content.virtual_machines
      → Each (HasResource (get_nanocl_group st)) st.content.resources
      → state_apply c false st w ≡ (ok tt, w)
  unfolding state_apply
  state_apply-unchanged st jobs secrets cargoes vms resources =
      let group = get_nanocl_group st in
      let namespace = namespace_of st in
      rw
        (
          each-Idle (HasSecret group) _ st.content.secrets (apply_secret-Idle group) secrets,
          each-Idle (λ _. ⊥) (apply_job c group) st.content.jobs (λ _ p. absurd p)
              (subst (λ js. Each (λ _. ⊥) js) (sym jobs) tt),
          each-Idle (HasCargo namespace group) _ st.content.cargoes
              (apply_cargo-Idle namespace group) cargoes,
          each-Idle (HasVm namespace group) _ st.content.virtual_machines
              (apply_vm-Idle namespace group) vms,
        )
        (each-Idle (HasResource group) _ st.content.resources (apply_resource-Idle group) resources)

  -- A machine that is there is updated whenever its part of the Statefile leaves out the
  -- configuration of the host, whatever the daemon has for it.
  pub apply_vm_again :
      (namespace group : Text) (v : VmSpecPartial F) (metadata : F.Value) (spec : VmSpec F)
      → v.host_config ≡ none
      → insert_nanocl_group F v.metadata group ≡ ok metadata
      → c.inspect_vm v.name (some namespace) w ≡ ok spec
      → apply_vm c false namespace group v w
        ≡ waiting c
            (key_of v.name namespace)
            EventActorKind.cargo
            NativeEventAction.start
            (c.send (
              patch_vm v.name (vm_update (record v { metadata = some metadata })) (some namespace)))
            w
  unfolding apply_vm
  apply_vm_again namespace group v metadata spec default inserted found =
      elim (decide-cases
        (VmSpecPartial-discrete F (vm_partial spec) (record v { metadata = some metadata }))) [
          | inl (same, d) ↦ cc (ap (λ x. x.host_config) same ∙ default)
          | inr d ↦ rw (inserted, found, d) refl
        ]
