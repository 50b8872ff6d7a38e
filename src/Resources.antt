-- ===== src/Resources.antt =====
-- Resources and their kinds: bin/nanocld/src/objects/resource.rs, repositories/resource.rs and
-- resource_kind.rs there, and the client of controllers, utils/ctrl_client.rs. The tables, JSON, its
-- schemas and the requests to controllers are a parameter; the events of the changes are left out.
pub mod Hooks
pub mod Stored
pub mod Kinds
pub mod Accepted
use nanocl.Prelude.{
  ℕ, Text, codes, starts_with, split, leb, ltb, Bool, true, false, ◌&&◌, ◌||◌, Option, none, some,
  is_none, List, [], ◌∷◌, ◌++◌, ◌⊎◌, inl, inr, if◌then◌else◌,
}
use nanocl.Io as Io
use nanocl.Io.{IoError, ErrorKind, Result, ok, err, with_context, map_ok}
use nanocl.Http.{HttpError, HttpResult, bad_request, conflict}
use nanocl.Http.Effect.{HttpEffect, pure, raise, io, reading, continue, ◌>>=◌, ◌>>◌}
use nanocl.Effect as Io_effect
use nanocl.Effect.{Effect}
use nanocl.Errors.{
  HttpClientError, io_error, http_error, http_of_client, SendRequestError, io_of_send,
}
use nanocl.Key.{ensure_kind}
use nanocl.Statefile.Objects.{Foreign, ResourcePartial, ResourceSpec, Resource}

pub record ResourceDb : Type 0 where
  pub key : Text
  pub created_at : ℕ
  pub kind : Text
  pub spec_key : Text

module _ (F : Foreign) where
  -- a row of specifications
  pub record SpecRow : Type 0 where
    pub key : Text
    pub created_at : ℕ
    pub kind_name : Text
    pub kind_key : Text
    pub version : Text
    pub content : F.Value
    pub metadata : Option F.Value

  pub record ResourceKindSpec : Type 0 where
    pub schema : Option F.Value
    pub url : Option Text

  pub record ResourceKindPartial : Type 0 where
    pub name : Text
    pub version : Text
    pub metadata : Option F.Value
    pub content : ResourceKindSpec

  pub record ResourceKind : Type 0 where
    pub name : Text
    pub version : Text
    pub created_at : ℕ
    pub metadata : Option F.Value
    pub content : ResourceKindSpec

  -- the answer of a controller: none came, or its status and its body
  pub data Answer : Type 0 where
    unsent : SendRequestError → Answer
    -- the value of the body, or the text of an error
    answered : ℕ → Text ⊎ F.Value → Answer

  pub record Registry (World : Type 0) : Type 0 where
    pub now : World → ℕ
    pub new_v4 : World → Text × World
    -- `transform_read_by_pk` of the tables; of a kind the version that its row names is read
    pub read_resource : Text → World → Result (Resource F)
    pub read_kind : Text → World → Result SpecRow
    -- the specification of a kind key with a version
    pub get_version : Text → Text → World → Result SpecRow
    pub create_spec : SpecRow → World → Result SpecRow × World
    pub create_row : ResourceDb → World → Result ResourceDb × World
    -- `update_pk` with the key of a specification
    pub update_row : Text → Text → World → Result ResourceDb × World
    pub del_row : Text → World → Result (Unit {0}) × World
    pub del_specs : Text → World → Result (Unit {0}) × World
    -- the table of kinds: a new name, and another specification of a name
    pub create_kind : Text → Text → World → Result (Unit {0}) × World
    pub update_kind : Text → Text → World → Result (Unit {0}) × World
    -- `serde_json` of what a kind specifies
    pub kind_to_value : ResourceKindSpec → Result F.Value
    pub kind_from_value : F.Value → Result ResourceKindSpec
    -- what a schema has against a value, or against the schema itself
    pub schema_error : F.Value → F.Value → Option Text
    -- `body["msg"].as_str()`
    pub message_of : F.Value → Option Text
    -- requests to a controller: PUT with a value and DELETE
    pub put : Text → F.Value → World → Answer × World
    pub delete : Text → World → Answer × World

-- the error of a controller, with the message of its body
abbrev message_error : Text → ℕ → Option Text → HttpError
message_error name status none = record { msg = []; status = status }
message_error name status (some m) = record { msg = name ++ (codes ": " ++ m); status = status }

-- `CtrlClient::new` panics for other addresses.
unfoldable pub base_url : Text → Result Text
base_url url =
    if starts_with (codes "unix://") url
    then ok (codes "http://localhost")
    else if starts_with (codes "http://") url || starts_with (codes "https://") url
    then ok url
    else err (with_context ErrorKind.other (codes "panic") (codes "Invalid url: " ++ url))

unfoldable pub rule_url : Text → Text → Text → Text
rule_url base version name = base ++ (codes "/" ++ (version ++ (codes "/rules/" ++ name)))

module _ {F : Foreign} where
  -- `Resource` of a row with its specification
  unfoldable pub with_spec : ResourceDb → SpecRow F → Resource F
  with_spec row spec = record {
    kind = row.kind;
    created_at = row.created_at;
    spec = record {
      key = spec.key;
      version = spec.version;
      created_at = spec.created_at;
      resource_key = spec.kind_key;
      content = spec.content;
      metadata = spec.metadata;
    };
  }

module _ {F : Foreign} {World : Type 0} (n : Registry F World) where
  abbrev json_error : Text → Text → IoError
  json_error name m = with_context ErrorKind.invalid_data name m

  abbrev error_of : Text → ℕ → Text ⊎ F.Value → HttpClientError
  error_of name status (inl m) = io_error (json_error name m)
  error_of name status (inr body) = http_error (message_error name status (n.message_of body))

  -- the error of an answer whose status is one
  unfoldable pub is_api_error : Text → ℕ → Text ⊎ F.Value → HttpClientError ⊎ Unit {0}
  is_api_error name status body =
      if leb 400 status && ltb status 600 then inl (error_of name status body) else inr tt

  abbrev json_of : Text → Text ⊎ F.Value → HttpClientError ⊎ F.Value
  json_of name (inl m) = inl (io_error (json_error name m))
  json_of name (inr body) = inr body

  abbrev unless_error :
      {A : Type 0} → HttpClientError ⊎ Unit {0} → HttpClientError ⊎ A → HttpClientError ⊎ A
  unless_error (inl e) r = inl e
  unless_error (inr _) r = r

  abbrev pub applied : Text → Answer F → HttpClientError ⊎ F.Value
  applied name (unsent e) = inl (io_error (io_of_send name e))
  applied name (answered status body) =
      unless_error (is_api_error name status body) (json_of name body)

  unfoldable pub apply_rule :
      Text → Text → Text → Text → F.Value → World → (HttpClientError ⊎ F.Value) × World
  apply_rule ctrl base version name content w =
      let (r, w') = n.put (rule_url base version name) content w in (applied ctrl r, w')

  abbrev removed : Text → Answer F → HttpClientError ⊎ Unit {0}
  removed name (unsent e) = inl (io_error (io_of_send name e))
  removed name (answered status body) = is_api_error name status body

  unfoldable pub delete_rule :
      Text → Text → Text → Text → World → (HttpClientError ⊎ Unit {0}) × World
  delete_rule ctrl base version name w =
      let (r, w') = n.delete (rule_url base version name) w in (removed ctrl r, w')
