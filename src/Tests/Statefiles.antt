-- ===== src/Tests/Statefiles.antt =====
-- Statefiles that are applied and removed.
use nanocl.Prelude.{
  retain, any, codes, ◌=ₜ◌, false, none, some, List, [], ◌∷◌, ◌≡◌, ◌↔◌, refl, if◌then◌else◌, Text,
  All,
}
use nanocl.Io.{Result, ok}
use nanocl.System.Event.{Event, EventKind, EventActorKind}
use nanocl.System.Action.{NativeEventAction}
use nanocl.Effect.{for_each}
use nanocl.Statefile.Objects.{Secret, SecretPartial, CargoSpecPartial, VmSpecPartial}
use nanocl.Statefile.Objects.Partial.{vm_update}
use nanocl.Statefile.{Client, StateRef, root_none, patch_vm, delete}
use nanocl.Statefile.Wait.{wait_process_state, wait_events, GoesOn, wait_events-ok}
use nanocl.Statefile.Apply.{
  insert_nanocl_group, get_nanocl_group, apply_secret, apply_cargo, apply_vm, state_apply, waiting,
  group_key,
}
use nanocl.Statefile.Remove.{
  remove_orphans, state_remove, rm_one, exec_rm, removed, object_name, get_query,
}
use nanocl.Statefile.Exec.{apply_states}
use nanocl.Statefile.Unchanged.{state_apply-unchanged, apply_vm_again, HasSecret}
use nanocl.Statefile.Logged.{Grown, IsLogged}
use nanocl.Statefile.Removed.{DeletesOrphan}
use nanocl.Statefile.Orphans.{remove_orphans-DeletesOrphan}
use nanocl.Tests.Client.{Json, text, fields, json, Shell, shell, change, shell-IsLogged, box_spec}

abbrev password : SecretPartial json
password = record {
  name = codes "password";
  kind = codes "nanocl.io/env";
  immutable = false;
  metadata = some (fields []);
  content = text (codes "x");
}

abbrev proxy : CargoSpecPartial json
proxy = record {
  name = codes "proxy";
  metadata = none;
  init_container = none;
  secrets = none;
  image_pull_secret = none;
  image_pull_policy = none;
  container = 1;
  replication = none;
}

abbrev box : VmSpecPartial json
box = record {
  name = codes "box";
  metadata = none;
  hostname = none;
  user = none;
  password = none;
  ssh_key = none;
  disk = record { image = codes "ubuntu"; size = none };
  mac_address = none;
  labels = none;
  host_config = none;
}

abbrev state_of : List (SecretPartial json) → List (CargoSpecPartial json) → StateRef json
state_of secrets cargoes = record {
  content = record {
    sub_states = none;
    group = some (codes "web");
    namespace = none;
    secrets = some secrets;
    resources = none;
    cargoes = some cargoes;
    virtual_machines = none;
    jobs = none;
  };
  root = root_none;
  location = codes "Statefile.yml";
}

abbrev pub both : StateRef json
both = state_of (password ∷ []) (proxy ∷ [])

abbrev pub empty : Shell
empty = record {
  kept = record { secrets = λ _. none; resources = λ _. none; cargoes = λ _ _. none };
  sent = [];
}

both-ok : (state_apply shell false both empty).0 ≡ ok tt
unfolding state_apply for_each apply_secret apply_cargo insert_nanocl_group get_nanocl_group
    wait_process_state wait_events shell change
both-ok = refl

abbrev secrets_then_both : List (StateRef json)
secrets_then_both = state_of (password ∷ []) [] ∷ state_of [] (proxy ∷ []) ∷ []

secrets_then_both-ok : (apply_states shell false false secrets_then_both empty).0 ≡ ok tt
unfolding apply_states state_apply for_each apply_secret apply_cargo insert_nanocl_group
    get_nanocl_group wait_process_state wait_events shell change
secrets_then_both-ok = refl

abbrev grouped_metadata : Json
grouped_metadata = fields ((group_key, codes "web") ∷ [])

-- a daemon that has the secret, with the group
abbrev with_password : Shell
with_password = record empty {
  kept = record (empty.kept) {
    secrets = λ n.
        if codes "password" =ₜ n
        then some (record password { metadata = some grouped_metadata })
        else none;
  };
}

abbrev found_password : Secret json
found_password = record {
  name = codes "password";
  created_at = 0;
  updated_at = 0;
  kind = codes "nanocl.io/env";
  immutable = false;
  metadata = some grouped_metadata;
  content = text (codes "x");
}

has_password : HasSecret shell with_password (codes "web") password
unfolding shell insert_nanocl_group ◌=ₜ◌
has_password = record {
  metadata = grouped_metadata;
  inserted = refl;
  inspect = found_password;
  found = refl;
  same = refl;
}

state_apply-unchanged_example :
    state_apply shell false (state_of (password ∷ []) []) with_password ≡ (ok tt, with_password)
unfolding get_nanocl_group
state_apply-unchanged_example =
    state_apply-unchanged shell with_password (state_of (password ∷ []) []) refl (has_password, tt)
      tt tt tt

apply_vm_again_example :
    apply_vm shell false (codes "global") (codes "web") box empty
    ≡ waiting shell
        (codes "box.global")
        EventActorKind.cargo
        NativeEventAction.start
        (shell.send (
          patch_vm
            (codes "box")
            (vm_update (record box { metadata = some grouped_metadata }))
            (some (codes "global"))))
        empty
unfolding insert_nanocl_group shell
apply_vm_again_example =
    apply_vm_again shell empty (codes "global") (codes "web") box grouped_metadata box_spec refl
      refl refl

-- the daemon has a secret of the group that the Statefile does not name any more
unfoldable orphaned : Client json Shell
unfolding shell
orphaned = record shell { list_secret = λ g w. ok (found_password ∷ []) }

unfoldable orphaned-IsLogged : IsLogged orphaned
unfolding shell-IsLogged shell orphaned
orphaned-IsLogged = record {
  sent = shell-IsLogged.sent;
  send_sent = shell-IsLogged.send_sent;
  watch_sent = shell-IsLogged.watch_sent;
  events_sent = shell-IsLogged.events_sent;
}

password_deleted :
    (remove_orphans orphaned (state_of [] []) with_password).1.sent
    ≡ delete (codes "secrets") (codes "password") none ∷ []
unfolding remove_orphans state_remove rm_one orphaned shell change for_each exec_rm removed retain
    any object_name get_query
password_deleted = refl

remove_orphans-DeletesOrphan_example :
    Grown
      (DeletesOrphan (state_of [] []))
      with_password.sent
      (remove_orphans orphaned (state_of [] []) with_password).1.sent
unfolding orphaned-IsLogged shell-IsLogged
remove_orphans-DeletesOrphan_example =
    remove_orphans-DeletesOrphan orphaned orphaned-IsLogged (state_of [] []) with_password

abbrev failed_at : Text → Event
failed_at key = record {
  key = codes "0";
  created_at = 0;
  expires_at = 86400;
  reporting_node = codes "node";
  reporting_controller = codes "nanocl.io/core";
  kind = EventKind.error;
  action = codes "start";
  reason = codes "state_sync";
  note = none;
  actor = some (record { key = some key; kind = EventActorKind.cargo; attributes = none });
  related = none;
  metadata = none;
}

-- a stream with an error event of another object
abbrev of_other : List (Result Event)
of_other = ok (failed_at (codes "db.global")) ∷ []

wait_events-ok_example :
    (wait_events (codes "web.global") of_other ≡ ok tt) ↔ All (GoesOn (codes "web.global")) of_other
wait_events-ok_example = wait_events-ok (codes "web.global") of_other
