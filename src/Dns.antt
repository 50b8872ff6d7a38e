-- ===== src/Dns.antt =====
-- The DNS controller: bin/ncdns/src/utils.rs, over the rules of crates/nanocl_stubs/src/dns.rs. The
-- addresses of the host and of the bridge are what the daemon answers; the content that a file of
-- dnsmasq is given is returned.
pub mod Removed
pub mod Servers
use nanocl.Prelude.{
  Text, codes, ◌=ₜ◌, starts_with, any, retain, not, Bool, List, [], ◌∷◌, ◌++◌, lines, unlines, some,
  if◌then◌else◌,
}
use nanocl.Io.{IoError, ErrorKind, Result, ok, err, with_context, ◌>>=◌}

-- `Other` holds an address as it is printed.
pub data NetworkKind : Type 0 where
  all local public internal : NetworkKind
  other : Text → NetworkKind

unfoldable pub to_string : NetworkKind → Text
to_string all = codes "All"
to_string local = codes "Local"
to_string public = codes "Public"
to_string internal = codes "Internal"
to_string (other ip) = codes "Ip(" ++ (ip ++ codes ")")

pub record DnsEntry : Type 0 where
  pub name : Text
  pub ip_address : NetworkKind

pub record ResourceDnsRule : Type 0 where
  pub network : NetworkKind
  pub entries : List DnsEntry

abbrev not_supported : Text → IoError
not_supported what =
    with_context ErrorKind.invalid_input (codes "Network") (what ++ codes " is not supported")

-- what a line of an entry starts with
unfoldable pub entry_start : DnsEntry → Text
entry_start entry = codes "address=/" ++ (entry.name ++ codes "/")

abbrev pub header : Text → List Text
header listen_address = codes "bind-dynamic" ∷ (codes "listen-address=" ++ listen_address) ∷ []

-- what is done with the file of the network
pub data Change : Type 0 where
  remove_config : Change
  write_config : Text → Change

abbrev pub is_of : ResourceDnsRule → Text → Bool
is_of dns_rule line = any (λ entry. starts_with (entry_start entry) line) dns_rule.entries

module _ (host_addr bridge_addr : Result Text) where
  unfoldable pub get_network_addr : NetworkKind → Result Text
  unfolding to_string
  get_network_addr local = ok (codes "127.0.0.1")
  get_network_addr public = host_addr
  get_network_addr internal = bridge_addr
  get_network_addr network = err (not_supported (to_string network))

  unfoldable pub entry_addr : NetworkKind → Result Text
  entry_addr local = ok (codes "127.0.0.1")
  entry_addr public = host_addr
  entry_addr internal = bridge_addr
  entry_addr (other ip) = ok ip
  entry_addr all = err (not_supported (codes "All network"))

  -- the loop over the entries
  unfoldable pub add_entries : Text → List DnsEntry → Result Text
  add_entries content [] = ok content
  add_entries content (entry ∷ entries) = do
    ip_address ← entry_addr entry.ip_address
    add_entries (content ++ ((entry_start entry ++ ip_address) ++ 10 ∷ [])) entries

  -- The content for a rule's network, with the entries of the other rules found for it.
  unfoldable pub update_entries : ResourceDnsRule → List DnsEntry → Result Text
  update_entries dns_rule others = do
    listen_address ← get_network_addr dns_rule.network
    add_entries
        (codes "bind-dynamic" ++ 10 ∷ (codes "listen-address=" ++ (listen_address ++ 10 ∷ [])))
        (dns_rule.entries ++ others)

  unfoldable pub remove_entries : ResourceDnsRule → Text → Result Change
  remove_entries dns_rule content = do
    listen_address ← get_network_addr dns_rule.network
    let file_content = unlines (retain (λ line. not (is_of dns_rule line)) (lines content))
    if file_content =ₜ (codes "listen-address=" ++ (listen_address ++ 10 ∷ []))
        then ok remove_config
        else ok (write_config file_content)
