-- ===== src/Proxy.antt =====
-- The targets of proxy rules: bin/ncproxy/src/utils/rule.rs. The daemon's answers, the templates and
-- the configuration files of nginx are a parameter.
pub mod Targets
use nanocl.Prelude.{
  ℕ, Text, codes, Bool, ◌==◌, ◌=ₜ◌, split, show, starts_with, Option, none, some, is_empty, List,
  [], ◌∷◌, ◌++◌, map, unwrap_or, if◌then◌else◌,
}
use nanocl.Io.{IoError, ErrorKind, Result, ok, err, with_context}
use nanocl.Effect.{Effect, pure, raise, reading, ◌>>=◌, ◌>>◌}
use nanocl.Dns.{NetworkKind, all, public, local, internal, other}

-- What is read of an instance: its name, and `network_settings.networks`, by the name of a network
-- the address.
pub record Instance : Type 0 where
  pub name : Text
  pub network_settings : Option (Option (List (Text × Option Text)))

pub record UpstreamTarget : Type 0 where
  pub key : Text
  pub port : ℕ
  pub path : Option Text
  pub disable_logging : Option Bool

pub data StreamTarget : Type 0 where
  upstream : UpstreamTarget → StreamTarget
  -- its URL
  uri : Text → StreamTarget
  -- its `unix_path`
  unix : Text → StreamTarget

pub data NginxRuleKind : Type 0 where
  site stream : NginxRuleKind

pub record Nginx (World : Type 0) : Type 0 where
  -- the key and the instances of an inspected cargo, machine; an error has its context
  pub inspect_cargo : Text → Text → World → Result (Text × List Instance)
  pub inspect_vm : Text → Text → World → Result (Text × List Instance)
  -- `UPSTREAM_TEMPLATE` of the key, the port and the addresses
  pub upstream_template : Text → ℕ → List Text → Result Text
  -- `UNIX_UPSTREAM_TEMPLATE` of the key and the path
  pub unix_template : Text → Text → Result Text
  pub write_conf_file : Text → Text → NginxRuleKind → World → Result (Unit {0}) × World
  -- the addresses of the host and of nanoclbr0
  pub host_addr : World → Result Text
  pub bridge_addr : World → Result Text

invalid_key : IoError
invalid_key =
    with_context ErrorKind.invalid_data (codes "TargetKey")
      (codes "Invalid expected <name>.<namespace>.<kind>")

-- a list of three texts or more
abbrev first_three : List Text → Result (Text × Text × Text)
first_three (name ∷ namespace ∷ kind ∷ _) = ok (name, namespace, kind)
first_three _ = err invalid_key

unfoldable pub parse_upstream_target : Text → Result (Text × Text × Text)
unfolding invalid_key
parse_upstream_target key = first_three (split b'.' key)

abbrev lookup : Text → List (Text × Option Text) → Option (Option Text)
lookup network [] = none
lookup network ((n, a) ∷ networks) =
    let rest = lookup network networks in if n =ₜ network then some a else rest

-- the address if it is not empty
abbrev address : Option (Option Text) → List Text
address (some (some a)) = if is_empty a then [] else a ∷ []
address _ = []

-- what the loop adds for an instance
unfoldable pub instance_address : Text → Instance → List Text
instance_address network p =
    if starts_with (codes "tmp-") p.name
    then []
    else address (lookup network (unwrap_or (unwrap_or p.network_settings none) []))

unfoldable pub addresses_of : Text → List Instance → List Text
addresses_of network [] = []
addresses_of network (p ∷ ps) = instance_address network p ++ addresses_of network ps

abbrev pub no_address : Text → IoError
no_address network =
    with_context ErrorKind.invalid_data (codes "Process")
      (codes "No address found for " ++ (network ++ codes " are processes running ?"))

abbrev pub or_no_address : Text → List Text → Result (List Text)
or_no_address network [] = err (no_address network)
or_no_address network (a ∷ rest) = ok (a ∷ rest)

unfoldable pub get_addresses : Text → List Instance → Result (List Text)
get_addresses network ps = or_no_address network (addresses_of network ps)

-- `replace('/', "-")`
abbrev dashes : Text → Text
dashes = map (λ c. if c == b'/' then b'-' else c)

module _ {World : Type 0} (x : Nginx World) where
  unfoldable pub get_network_addr : NetworkKind → ℕ → Effect World Text
  get_network_addr all port = pure (show port)
  get_network_addr public port = reading x.host_addr >>= λ ip. pure (ip ++ b':' ∷ show port)
  get_network_addr local port = pure (codes "127.0.0.1:" ++ show port)
  get_network_addr internal port = reading x.bridge_addr >>= λ ip. pure (ip ++ b':' ∷ show port)
  get_network_addr (other ip) port = pure (ip ++ b':' ∷ show port)

  -- the upstream of inspected instances; the result is its key
  abbrev pub write_upstream : Text → NginxRuleKind → ℕ → Text × List Instance → Effect World Text
  write_upstream suffix kind port (target_key, instances) = do
    addresses ← reading (λ w. get_addresses (codes "nanoclbr0") instances)
    let key = target_key ++ (b'-' ∷ show port ++ suffix)
    content ← reading (λ w. x.upstream_template key port addresses)
    x.write_conf_file key content kind
    pure key

  abbrev unknown_kind : Text → IoError
  unknown_kind kind =
      with_context ErrorKind.invalid_data (codes "UpstreamTarget") (codes "Unknown Kind " ++ kind)

  abbrev pub upstream_of : NginxRuleKind → ℕ → Text × Text × Text → Effect World Text
  upstream_of kind port (name, namespace, target_kind) =
      if target_kind =ₜ codes "c"
      then reading (x.inspect_cargo name namespace) >>= write_upstream (codes "-cargo") kind port
      else if target_kind =ₜ codes "v"
      then reading (x.inspect_vm name namespace) >>= write_upstream (codes "-vm") kind port
      else raise (unknown_kind target_kind)

  unfoldable pub gen_upstream : UpstreamTarget → NginxRuleKind → Effect World Text
  gen_upstream target kind =
      reading (λ w. parse_upstream_target target.key) >>= upstream_of kind target.port

  unfoldable pub gen_unix_target_key : Text → NginxRuleKind → Effect World Text
  gen_unix_target_key unix_path kind = do
    let upstream_key = codes "unix-" ++ dashes unix_path
    content ← reading (λ w. x.unix_template upstream_key unix_path)
    x.write_conf_file upstream_key content kind
    pure upstream_key

  unfoldable pub gen_stream_upstream_key : StreamTarget → Effect World Text
  gen_stream_upstream_key (upstream target) = gen_upstream target stream
  gen_stream_upstream_key (unix unix_path) = gen_unix_target_key unix_path stream
  gen_stream_upstream_key (uri _) =
      raise
        (with_context ErrorKind.invalid_input (codes "StreamTarget") (codes "uri not supported"))
