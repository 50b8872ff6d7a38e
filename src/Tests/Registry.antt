-- ===== src/Tests/Registry.antt =====
-- Resources of a kind whose controller takes every rule.
use nanocl.Prelude.{
  codes, none, some, List, [], ◌∷◌, ◌++◌, ◌≡◌, refl, ap, sym, inr, all, split, starts_with,
}
use nanocl.Io.{Result, ok, err, with_context, ErrorKind}
use nanocl.System.Event.{string}
use nanocl.Statefile.Objects.{ResourcePartial, Resource}
use nanocl.Objects.Specs.{daemon}
use nanocl.Resources.{
  ResourceDb, SpecRow, ResourceKindSpec, answered, Registry, base_url, with_spec, apply_rule,
  is_api_error, rule_url,
}
use nanocl.Resources.Kinds.{IsFaithful, create_from_spec-current}
use nanocl.Resources.Hooks.{current_kind, hook_create, parse_kind, kind_of_spec, read_kind_version}
use nanocl.Resources.Stored.{create_from_spec, fn_create_resource}
use nanocl.Resources.Accepted.{
  Change, put_rule, spec_created, row_created, IsLogged, Created, fn_create_resource-Created,
}

abbrev Log : Type 0
Log = List (Change daemon)

-- the last version of the kind
abbrev last : SpecRow daemon
last = record {
  key = codes "2";
  created_at = 0;
  kind_name = codes "ResourceKind";
  kind_key = codes "ncproxy.io/rule";
  version = codes "v2";
  content = string [];
  metadata = none;
}

abbrev controlled : ResourceKindSpec daemon
controlled = record { schema = none; url = some (codes "unix:///run/nanocl/proxy.sock") }

unfoldable registry : Registry daemon Log
registry = record {
  now = λ w. 0;
  new_v4 = λ w. (codes "1", w);
  read_resource =
      λ key w. err (with_context ErrorKind.not_found (codes "Resource") (codes "no row"));
  read_kind = λ kind w. ok last;
  get_version = λ kind version w. ok (record last { version = version });
  create_spec = λ row w. (ok row, w ++ spec_created row ∷ []);
  create_row = λ row w. (ok row, w ++ row_created row ∷ []);
  update_row = λ key spec_key w. (
    ok (record { key = key; created_at = 0; kind = codes "ncproxy.io/rule"; spec_key = spec_key }),
    w,
  );
  del_row = λ key w. (ok tt, w);
  del_specs = λ key w. (ok tt, w);
  create_kind = λ name key w. (ok tt, w);
  update_kind = λ name key w. (ok tt, w);
  kind_to_value = λ spec. ok (string []);
  kind_from_value = λ x. ok controlled;
  schema_error = λ schema x. none;
  message_of = λ x. none;
  put = λ url x w. (answered 200 (inr (string (codes "checked"))), w ++ put_rule url x ∷ []);
  delete = λ url w. (answered 200 (inr (string [])), w);
}

unfoldable registry-IsLogged : IsLogged registry
unfolding registry
registry-IsLogged = record {
  log = λ w. w;
  new_log = λ w. refl;
  put_log = λ url x w. refl;
  spec_log = λ x w. refl;
  row_log = λ x w. refl;
}

spec_of : Result (SpecRow daemon) → SpecRow daemon → SpecRow daemon
spec_of (ok x) _ = x
spec_of (err _) x = x

row_of : Result ResourceDb → ResourceDb → ResourceDb
row_of (ok x) _ = x
row_of (err _) x = x

registry-IsFaithful : IsFaithful registry
unfolding registry spec_of row_of
registry-IsFaithful = record {
  spec = λ x y w h. sym (ap (λ z. spec_of z x) h);
  row = λ x y w h. sym (ap (λ z. row_of z x) h);
}

abbrev rule : ResourcePartial daemon
rule = record {
  name = codes "site";
  kind = codes "ncproxy.io/rule/v1";
  content = string (codes "rules");
  metadata = none;
}

fn_create_resource-Created_example :
    Created registry rule [] []
      (fn_create_resource registry rule []).0
      (registry-IsLogged.log (fn_create_resource registry rule []).1)
unfolding registry-IsLogged
fn_create_resource-Created_example = fn_create_resource-Created registry registry-IsLogged rule []

-- The rule is put before anything is stored, and what is stored is the controller's answer.
created_rule :
    (fn_create_resource registry rule []).1
    ≡ put_rule (codes "http://localhost/v1/rules/site") (string (codes "rules"))
      ∷ spec_created (record last {
        key = codes "1";
        kind_name = codes "Resource";
        kind_key = codes "site";
        version = codes "v1";
        content = string (codes "checked");
      })
      ∷ row_created (record {
        key = codes "site";
        created_at = 0;
        kind = codes "ncproxy.io/rule";
        spec_key = codes "1";
      })
      ∷ []
unfolding registry fn_create_resource hook_create current_kind parse_kind split kind_of_spec
    base_url starts_with apply_rule is_api_error create_from_spec rule_url
created_rule = refl

abbrev site : Resource daemon
site = record {
  kind = codes "ncproxy.io/rule";
  created_at = 0;
  spec = record {
    key = codes "1";
    version = codes "v1";
    created_at = 0;
    resource_key = codes "site";
    content = string (codes "rules");
    metadata = none;
  };
}

create_from_spec-current_example :
    (site.kind ≡ codes "ncproxy.io/rule")
    × (site.spec.version ≡ codes "v1")
    × ((row : SpecRow daemon) × (registry.read_kind (codes "ncproxy.io/rule") [] ≡ ok row)
        × (codes "v2" ≡ row.version))
unfolding registry create_from_spec with_spec parse_kind current_kind kind_of_spec read_kind_version
    split all
create_from_spec-current_example =
    create_from_spec-current registry (codes "ncproxy.io") (codes "rule") refl refl
      registry-IsFaithful (codes "v1") rule [] site refl refl refl []
      (
        codes "v2",
        record {
          name = codes "ncproxy.io/rule";
          version = codes "v2";
          created_at = 0;
          metadata = none;
          content = controlled;
        },
      )
      refl
