-- ===== src/Tests/Dns.antt =====
-- A rule of the DNS controller, and its servers.
use nanocl.Prelude.{Text, codes, all, retain, not, List, [], ◌∷◌, ◌++◌, unlines, is_line, ◌≡◌, refl}
use nanocl.Io.{ok, ◌>>=◌}
use nanocl.Dns.{
  DnsEntry, ResourceDnsRule, public, internal, write_config, header, is_of, update_entries,
  remove_entries, get_network_addr, entry_addr, entry_start,
}
use nanocl.Dns.Removed.{entry_lines, remove_entries-update_entries}

abbrev web : DnsEntry
web = record { name = codes "web.local"; ip_address = internal }

abbrev api : DnsEntry
api = record { name = codes "api.local"; ip_address = public }

abbrev rule : ResourceDnsRule
rule = record { network = public; entries = web ∷ [] }

abbrev host : Text
host = codes "192.0.2.1"

abbrev bridge : Text
bridge = codes "10.2.0.1"

abbrev web_lines : List Text
web_lines = codes "address=/web.local/10.2.0.1" ∷ []

abbrev api_lines : List Text
api_lines = codes "address=/api.local/192.0.2.1" ∷ []

remove_entries-update_entries_example :
    (update_entries (ok host) (ok bridge) rule (api ∷ [])
      >>= remove_entries (ok host) (ok bridge) rule)
    ≡ ok (write_config (unlines (header host ++ retain (λ l. not (is_of rule l)) api_lines)))
unfolding get_network_addr entry_lines entry_addr entry_start is_line all
remove_entries-update_entries_example =
    remove_entries-update_entries (ok host) (ok bridge) rule (api ∷ []) host web_lines api_lines
      refl refl refl refl

abbrev two : List Text
two = codes "1.1.1.1" ∷ codes "9.9.9.9" ∷ []

abbrev file : Text
file = unlines (codes "server=8.8.8.8" ∷ codes "no-resolv" ∷ [])
