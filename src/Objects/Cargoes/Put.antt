-- ===== src/Objects/Cargoes/Put.antt =====
-- What a new specification of a cargo leaves.
use nanocl.Prelude.{Text, codes, ◌≡◌}
use nanocl.Io.{IoError, Result, ok, err}
use nanocl.Http.{HttpError, HttpResult}
use nanocl.System.Status.{ObjPsStatusKind}
use nanocl.System.Action.{NativeEventAction}
use nanocl.Workload.{Cargo}
use nanocl.Statefile.Objects.{CargoSpecPartial}
use nanocl.Backend.{Backend}
use nanocl.Backend.Laws.{Seen, IsLawful}
use nanocl.Container.Generic.Requests.{IsRequested}
use nanocl.Objects.Specs.{Repositories, SpecDb, daemon, update_from_cargo_spec}
use nanocl.Objects.Cargoes.Patched.{own}

-- Writes to the tables of specifications and objects change no status and send no event.
pub record IsApart {World Data : Type 0} (b : Backend World) (l : IsLawful b)
    (r : Repositories World Data) : Type 0 where
  pub new_see : (w : World) → l.see (r.new_v4 w).1 ≡ l.see w
  pub spec_see : (x : SpecDb Data) (w : World) → l.see (r.create_spec x w).1 ≡ l.see w
  pub cargo_see :
      (key name spec_key : Text) (w : World)
      → l.see (r.update_cargo key name spec_key w).1 ≡ l.see w

-- A specification comes back from its stored form, and a row that was stored as it was given.
pub record IsFaithful {World Data : Type 0} (r : Repositories World Data) : Type 0 where
  pub round :
      (x : CargoSpecPartial daemon) (d : Data)
      → r.cargo_to_value x ≡ ok d
      → r.cargo_from_value d ≡ ok x
  pub stored : (x y : SpecDb Data) (w : World) → (r.create_spec x w).0 ≡ ok y → y ≡ x

module _ {World Data : Type 0} (b : Backend World) (l : IsLawful b) (r : Repositories World Data)
    (a : IsApart b l r) where
  -- A row of a specification was created, and the cargo updated with its name and that row's key.
  pub record Stores (key : Text) (spec : CargoSpecPartial daemon) (version : Text) : Type 0 where
    pub at : World
    pub row : SpecDb Data
    pub kind_key : row.kind_key ≡ key
    pub content : r.cargo_to_value spec ≡ ok row.content
    pub row_version : row.version ≡ version
    pub created : (r.create_spec row at).0 ≡ ok row
    pub named : (r.update_cargo key spec.name row.key (r.create_spec row at).1).0 ≡ ok tt

  -- The outcomes of a request to give a cargo a specification: it failed before anything was
  -- changed; the row asks for a start and says `updating`, but storing the specification failed, and
  -- no event was sent; or a row with the stored form of the specification was created, the cargo was
  -- updated to name that row, and the event was sent or lost.
  pub data Put (key : Text) (spec : CargoSpecPartial daemon) (version : Text) (before : Seen)
      : HttpResult Cargo → Seen → Type 0 where
    refused : (e : HttpError) → Put key spec version before (HttpResult.err e) before
    stuck :
        (e : HttpError) (after : Seen) (w : World) (x : IoError)
        → (update_from_cargo_spec b r key spec version w).0 ≡ err x
        → IsRequested b key ObjPsStatusKind.start ObjPsStatusKind.updating
            NativeEventAction.updating before after
        → after.sent ≡ before.sent
        → Put key spec version before (HttpResult.err e) after
    put :
        (cargo : Cargo) (after : Seen)
        → own cargo ≡ spec
        → Stores key spec version
        → IsRequested b key ObjPsStatusKind.start ObjPsStatusKind.updating
            NativeEventAction.updating before after
        → Put key spec version before (HttpResult.ok cargo) after

  module _ (f : IsFaithful r) (key : Text) (item : CargoSpecPartial daemon) (version : Text) where
    abbrev row_of : World → Data → SpecDb Data
    row_of w d = record {
      key = (r.new_v4 w).0;
      created_at = b.now w;
      kind_name = codes "Cargo";
      kind_key = key;
      version = version;
      content = d;
      metadata = item.metadata;
    }

    cargo_of : Result Cargo → Cargo → Cargo
    cargo_of (ok cargo) _ = cargo
    cargo_of (err _) cargo = cargo
