-- ===== src/Resources/Hooks.antt =====
-- What a resource's kind has the daemon do: repositories/resource.rs.
use nanocl.Prelude.{Text, codes, split, Option, none, some, List, [], ◌∷◌, ◌++◌, ◌⊎◌, inl, inr}
use nanocl.Io as Io
use nanocl.Io.{IoError, ErrorKind, Result, ok, err, with_context, map_ok}
use nanocl.Http.{HttpResult, bad_request}
use nanocl.Http.Effect.{HttpEffect, pure, raise, io, ◌>>=◌, ◌>>◌}
use nanocl.Effect as Io_effect
use nanocl.Effect.{Effect}
use nanocl.Errors.{HttpClientError, http_of_client}
use nanocl.Statefile.Objects.{Foreign, ResourcePartial, Resource}
use nanocl.Resources.{SpecRow, ResourceKind, Registry, base_url, apply_rule, delete_rule}

abbrev pub client_result : {A : Type 0} → HttpClientError ⊎ A → HttpResult A
client_result (inl e) = HttpResult.err (http_of_client e)
client_result (inr a) = HttpResult.ok a

-- a kind with its version in three parts, or else the kind that was read
abbrev pub kind_parts : List Text → Result (Text × Text) → Result (Text × Text)
kind_parts (domain ∷ kind ∷ version ∷ _) r = ok (domain ++ (codes "/" ++ kind), version)
kind_parts (domain ∷ kind ∷ []) r = r
kind_parts (domain ∷ []) r = r
kind_parts [] r = r

abbrev if_ok : {A B : Type 0} → Result A → (A → Result B) → Result B
if_ok r f = Io.◌>>=◌ r f

module _ {F : Foreign} {World : Type 0} (n : Registry F World) where
  -- `ResourceKind` of a row
  unfoldable pub kind_of_spec : SpecRow F → Result (ResourceKind F)
  kind_of_spec row =
      map_ok
        (λ content. record {
          name = row.kind_key;
          version = row.version;
          created_at = row.created_at;
          metadata = row.metadata;
          content = content;
        })
        (n.kind_from_value row.content)

  unfoldable pub read_kind_version : Text → World → Result (Text × Text)
  read_kind_version kind w =
      if_ok (n.read_kind kind w) λ row. map_ok (λ k. (k.name, k.version)) (kind_of_spec row)

  unfoldable pub parse_kind : Text → World → Result (Text × Text)
  parse_kind kind w = kind_parts (split b'/' kind) (read_kind_version kind w)

  -- the kind of a resource, in the version that it names or else in the last one
  unfoldable pub current_kind : Text → World → Result (Text × ResourceKind F)
  current_kind kind w =
      if_ok (parse_kind kind w)
        λ p. if_ok (n.get_version p.0 p.1 w) λ row. map_ok (λ k. (p.1, k)) (kind_of_spec row)

  abbrev pub refused_by : Option F.Value → F.Value → Option Text
  refused_by none content = none
  refused_by (some schema) content = n.schema_error schema content

  abbrev failing_on : Option Text → HttpEffect World (Unit {0})
  failing_on none = pure tt
  failing_on (some m) = raise (bad_request (codes "Invalid schema " ++ m))

  abbrev called : {A : Type 0} → (World → (HttpClientError ⊎ A) × World) → HttpEffect World A
  called f w = let (r, w') = f w in (client_result r, w')

  abbrev pub configured :
      Option Text → Text → ResourceKind F → ResourcePartial F → HttpEffect World (ResourcePartial F)
  configured none version kind resource = pure resource
  configured (some url) version kind resource = do
    base ← io (Io_effect.reading (λ _. base_url url))
    config ← called (apply_rule n kind.name base version resource.name resource.content)
    pure (record resource { content = config })

  unfoldable pub hook_create : ResourcePartial F → HttpEffect World (ResourcePartial F)
  hook_create resource = do
    p ← io (Io_effect.reading (current_kind resource.kind))
    failing_on (refused_by p.1.content.schema resource.content)
    configured p.1.content.url p.0 p.1 resource

  abbrev unconfigured : Option Text → ResourceKind F → Resource F → HttpEffect World (Unit {0})
  unconfigured none kind resource = pure tt
  unconfigured (some url) kind resource = do
    base ← io (Io_effect.reading (λ _. base_url url))
    called (delete_rule n kind.name base resource.spec.version resource.spec.resource_key)

  unfoldable pub hook_delete : Resource F → HttpEffect World (Unit {0})
  hook_delete resource = do
    p ← io (Io_effect.reading (current_kind resource.kind))
    unconfigured p.1.content.url p.1 resource
