-- ===== src/Dns/Servers.antt =====
-- `set_dns` of bin/ncdns/src/dnsmasq.rs: the servers of the main file of dnsmasq, from its content to
-- the one that is written.
use nanocl.Prelude.{
  Text, codes, starts_with, starts_with-append, all, retain, retain-append, not, Bool, true,
  Bool-cases, inl, inr, List, [], ◌∷◌, ◌++◌, map, lines, unlines, lines-unlines, is_line, ◌≡◌, refl,
  ap, ap₂, ◌∙◌, append-nil, retain-retain,
}

abbrev pub server : Text → Text
server dns = codes "server=" ++ dns

abbrev pub is_server : Text → Bool
is_server line = starts_with (codes "server=") line

unfoldable pub set_dns : List Text → Text → Text
set_dns dns content =
    unlines (map server dns ++ retain (λ line. not (is_server line)) (lines content))

servers_lem : (dns : List Text) → retain is_server (map server dns) ≡ map server dns
unfolding retain
servers_lem [] = refl
servers_lem (d ∷ dns) =
    rw (starts_with-append (codes "server=") d) (ap (λ t. server d ∷ t) (servers_lem dns))

no_servers : (dns : List Text) → retain (λ line. not (is_server line)) (map server dns) ≡ []
unfolding retain
no_servers [] = refl
no_servers (d ∷ dns) = rw (starts_with-append (codes "server=") d) (no_servers dns)

none_left : (ls : List Text) → retain is_server (retain (λ line. not (is_server line)) ls) ≡ []
unfolding retain
none_left [] = refl
none_left (l ∷ ls) = elim (Bool-cases (is_server l)) [
  | inl h ↦ rw h (none_left ls)
  | inr h ↦ rw (h, h) (none_left ls)
]

module _ (dns : List Text) (content : Text)
    (h : all is_line (map server dns ++ retain (λ line. not (is_server line)) (lines content))
      ≡ true) where
  lines-set_dns :
      lines (set_dns dns content)
      ≡ map server dns ++ retain (λ line. not (is_server line)) (lines content)
  unfolding set_dns
  lines-set_dns = lines-unlines _ h

  -- The servers of the file that is written are the ones given, in their order, and its other lines
  -- are those of the file before. For lines without line breaks.
  pub set_dns_lem :
      (retain is_server (lines (set_dns dns content)) ≡ map server dns)
      × (retain (λ line. not (is_server line)) (lines (set_dns dns content))
          ≡ retain (λ line. not (is_server line)) (lines content))
  set_dns_lem = (
    ap (retain is_server) lines-set_dns
        ∙ retain-append is_server (map server dns)
            (retain (λ line. not (is_server line)) (lines content))
        ∙ ap₂ (λ s t. s ++ t) (servers_lem dns) (none_left (lines content))
        ∙ append-nil (map server dns),
    ap (retain (λ line. not (is_server line))) lines-set_dns
        ∙ retain-append (λ line. not (is_server line)) (map server dns)
            (retain (λ line. not (is_server line)) (lines content))
        ∙ ap₂ (λ s t. s ++ t) (no_servers dns)
            (retain-retain (λ line. not (is_server line)) (lines content)),
  )

  -- Setting the same servers again changes nothing.
  pub set_dns-set_dns : set_dns dns (set_dns dns content) ≡ set_dns dns content
  unfolding set_dns
  set_dns-set_dns = ap (λ t. unlines (map server dns ++ t)) set_dns_lem.1
