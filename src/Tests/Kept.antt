-- ===== src/Tests/Kept.antt =====
-- What a daemon in memory keeps for the command line.
use nanocl.Prelude.{Text, ◌=ₜ◌, Option, some, if◌then◌else◌}
use nanocl.Statefile.Objects.{
  Foreign, SecretPartial, SecretUpdate, ResourcePartial, ResourceUpdate, CargoSpecPartial,
}

abbrev pub set_at : {A : Type 0} → Text → A → (Text → Option A) → Text → Option A
set_at name a f n = if name =ₜ n then some a else f n

module _ (F : Foreign) where
  pub record Kept : Type 0 where
    pub secrets : Text → Option (SecretPartial F)
    pub resources : Text → Option (ResourcePartial F)
    -- by the namespace
    pub cargoes : Text → Text → Option (CargoSpecPartial F)

module _ {F : Foreign} where
  abbrev pub set_secret : Text → SecretPartial F → Kept F → Kept F
  set_secret name s k = record k { secrets = set_at name s k.secrets }

  abbrev pub set_resource : Text → ResourcePartial F → Kept F → Kept F
  set_resource name r k = record k { resources = set_at name r k.resources }

  abbrev pub set_cargo : Text → Text → CargoSpecPartial F → Kept F → Kept F
  set_cargo namespace name g k = record k {
    cargoes = λ n. if namespace =ₜ n then set_at name g (k.cargoes n) else k.cargoes n;
  }

  abbrev pub updated_secret : SecretUpdate F → SecretPartial F → SecretPartial F
  updated_secret u s = record s { metadata = u.metadata; content = u.content }

  abbrev pub updated_resource : ResourceUpdate F → ResourcePartial F → ResourcePartial F
  updated_resource u r = record r { metadata = u.metadata; content = u.content }
