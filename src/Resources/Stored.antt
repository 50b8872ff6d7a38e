-- ===== src/Resources/Stored.antt =====
-- Resources that are created, replaced and deleted, and versions of kinds that are created:
-- objects/resource.rs, repositories/resource.rs and resource_kind.rs.
use nanocl.Prelude.{Text, codes, Bool, true, false, ◌&&◌, is_none, ◌++◌}
use nanocl.Io as Io
use nanocl.Io.{IoError, ErrorKind, Result, ok, err, with_context, map_ok}
use nanocl.Http.{HttpError, HttpResult, conflict}
use nanocl.Http.Effect.{HttpEffect, pure, raise, io, ◌>>=◌, ◌>>◌}
use nanocl.Effect as Io_effect
use nanocl.Effect.{Effect}
use nanocl.Key.{ensure_kind}
use nanocl.Statefile.Objects.{Foreign, ResourcePartial, Resource}
use nanocl.Resources.{SpecRow, ResourceKindPartial, ResourceKind, Registry, with_spec}
use nanocl.Resources.Hooks.{parse_kind, kind_of_spec, hook_create, hook_delete}

abbrev is_ok : {A : Type 0} → Result A → Bool
is_ok (ok _) = true
is_ok (err _) = false

abbrev pub already : Text → HttpError
already name = conflict (codes "Resource " ++ (name ++ codes " already exists"))

module _ {F : Foreign} {World : Type 0} (n : Registry F World) where
  abbrev pub resource_row : Text → Text → ResourcePartial F → World → SpecRow F × World
  resource_row kind_key version item w =
      let (uuid, w') = n.new_v4 w in
      (
        record {
          key = uuid;
          created_at = n.now w;
          kind_name = codes "Resource";
          kind_key = kind_key;
          version = version;
          content = item.content;
          metadata = item.metadata;
        },
        w',
      )

  abbrev pub create_resource_spec : Text → Text → ResourcePartial F → Effect World (SpecRow F)
  create_resource_spec kind_key version item w =
      let (row, w') = resource_row kind_key version item w in n.create_spec row w'

  unfoldable pub create_from_spec : ResourcePartial F → Effect World (Resource F)
  create_from_spec item = Io_effect.◌>>=◌ (Io_effect.reading (parse_kind n item.kind)) λ p.
      Io_effect.◌>>=◌ (create_resource_spec item.name p.1 item) λ spec.
        Io_effect.◌>>=◌
          (λ w.
            n.create_row
              (record { key = item.name; created_at = n.now w; kind = p.0; spec_key = spec.key }) w)
          λ row. Io_effect.pure (with_spec row spec)

  unfoldable pub update_from_spec : ResourcePartial F → Effect World (Resource F)
  update_from_spec item =
      Io_effect.◌>>=◌ (Io_effect.reading (n.read_resource item.name)) λ resource.
        Io_effect.◌>>=◌ (Io_effect.reading (parse_kind n item.kind)) λ p.
          Io_effect.◌>>=◌ (create_resource_spec resource.spec.resource_key p.1 item) λ spec.
            Io_effect.◌>>=◌ (n.update_row item.name spec.key)
              λ row. Io_effect.pure (with_spec row spec)

  abbrev failing_if : Bool → HttpError → HttpEffect World (Unit {0})
  failing_if true e = raise e
  failing_if false e = pure tt

  unfoldable pub fn_create_resource : ResourcePartial F → HttpEffect World (Resource F)
  fn_create_resource obj = do
    λ w. failing_if (is_ok (n.read_resource obj.name w)) (already obj.name) w
    obj ← hook_create n obj
    io (create_from_spec obj)

  unfoldable pub fn_put_resource : Text → ResourcePartial F → HttpEffect World (Resource F)
  fn_put_resource pk obj = do
    io (Io_effect.reading (n.read_resource pk))
    resource ← hook_create n obj
    io (update_from_spec resource)

  -- the failure of the controller is logged
  abbrev attempted : HttpEffect World (Unit {0}) → HttpEffect World (Unit {0})
  attempted m w = (HttpResult.ok tt, (m w).1)

  unfoldable pub fn_del_resource : Text → HttpEffect World (Resource F)
  fn_del_resource key = do
    resource ← io (Io_effect.reading (n.read_resource key))
    attempted (hook_delete n resource)
    io (n.del_row resource.spec.resource_key)
    io (n.del_specs resource.spec.resource_key)
    pure resource

  abbrev undefined : IoError
  undefined =
      with_context ErrorKind.invalid_input (codes "ResourceKind")
        (codes "Invalid data nor url or schema defined")

  abbrev unless_undefined : {A : Type 0} → Bool → Result A → Result A
  unless_undefined true r = err undefined
  unless_undefined false r = r

  -- what a version of a kind stores
  abbrev checked : ResourceKindPartial F → Result F.Value
  checked p = Io.◌>>=◌ (n.kind_to_value p.content) λ content.
      Io.◌>>=◌ (ensure_kind p.name)
        λ _. unless_undefined (is_none p.content.url && is_none p.content.schema) (ok content)

  abbrev kind_row : ResourceKindPartial F → F.Value → Effect World (SpecRow F)
  kind_row p content w =
      let (uuid, w') = n.new_v4 w in
      (
        ok (record {
          key = uuid;
          created_at = n.now w;
          kind_name = codes "ResourceKind";
          kind_key = p.name;
          version = p.version;
          content = content;
          metadata = p.metadata;
        }),
        w',
      )

  -- the row of a version of a kind
  unfoldable pub try_from_kind : ResourceKindPartial F → Effect World (SpecRow F)
  try_from_kind p = Io_effect.◌>>=◌ (Io_effect.reading (λ _. checked p)) (kind_row p)

  abbrev store_kind : Text → SpecRow F → Bool → Effect World (Unit {0})
  store_kind name version true = n.update_kind name version.key
  store_kind name version false = n.create_kind name version.key

  unfoldable pub create_kind_from_spec : ResourceKindPartial F → HttpEffect World (ResourceKind F)
  create_kind_from_spec item = do
    λ w.
        failing_if (is_ok (n.get_version item.name item.version w))
          (conflict (
            codes "Version "
            ++ (item.version ++ (codes " of " ++ (item.name ++ codes " already exists")))))
          w
    kind_version ← io (try_from_kind item)
    version ← io (n.create_spec kind_version)
    λ w.
        io
          (store_kind item.name version
            (is_ok (Io.◌>>=◌ (n.read_kind item.name w) (kind_of_spec n))))
          w
    io (Io_effect.reading (λ _. kind_of_spec n version))
