-- ===== src/Tests/Proxy.antt =====
-- Targets of proxy rules.
use nanocl.Prelude.{Text, codes, none, some, List, [], ◌∷◌, ◌++◌, map, ◌≡◌}
use nanocl.Io.{ok, err}
use nanocl.Key.{gen_key}
use nanocl.Proxy.{Instance, Nginx, UpstreamTarget, get_addresses, no_address}
use nanocl.Proxy.Targets.{flag, get_addresses-flag}

abbrev at : Text → Text → Instance
at name ip = record {
  name = name;
  network_settings = some (some ((codes "nanoclbr0", some ip) ∷ []));
}

abbrev old : List Instance
old = at (codes "web-a.global.c") (codes "10.0.0.2") ∷ []

abbrev new : List Instance
new = at (codes "web-b.global.c") (codes "10.0.0.3") ∷ []

get_addresses-flag_example :
    get_addresses (codes "nanoclbr0") (map flag old ++ new) ≡ get_addresses (codes "nanoclbr0") new
get_addresses-flag_example = get_addresses-flag (codes "nanoclbr0") old new

-- nginx whose files are the world
abbrev nginx : Nginx (List (Text × Text))
nginx = record {
  inspect_cargo = λ name namespace w. ok (gen_key namespace name, new);
  inspect_vm = λ name namespace w. err (no_address name);
  upstream_template = λ key port addresses. ok key;
  unix_template = λ key path. ok path;
  write_conf_file = λ key content kind w. (ok tt, (key, content) ∷ w);
  host_addr = λ w. ok (codes "192.168.0.1");
  bridge_addr = λ w. ok (codes "10.0.0.1");
}

abbrev web_target : UpstreamTarget
web_target = record { key = codes "web.global.c"; port = 80; path = none; disable_logging = none }
