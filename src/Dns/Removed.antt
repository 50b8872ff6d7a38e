-- ===== src/Dns/Removed.antt =====
-- Removing the entries of a rule from the file that was written with them.
use nanocl.Prelude.{
  ℕ, ◌==◌, inl, inr, Text, codes, ◌=ₜ◌, starts_with, starts_with-append, any, all, retain,
  retain-append, not, Bool, true, false, List, [], ◌∷◌, ◌++◌, append_assoc, append-nil, unlines,
  lines-unlines, is_line, ◌≡◌, refl, sym, ap, ◌∙◌, arith,
}
use nanocl.Io.{Result, ok, ◌>>=◌, Result-cases}
use nanocl.Dns.{
  DnsEntry, ResourceDnsRule, write_config, entry_addr, entry_start, add_entries, header,
  get_network_addr, is_of, update_entries, remove_entries,
}

not_any :
    (es : List DnsEntry) (c : ℕ) (line : Text)
    → (b'a' == c) ≡ false
    → any (λ entry. starts_with (entry_start entry) (c ∷ line)) es ≡ false
unfolding any starts_with entry_start
not_any [] c line h = refl
not_any (e ∷ es) c line h = rw (h, not_any es c line h)

any_here :
    (p : DnsEntry → Bool) (pre : List DnsEntry) (e : DnsEntry) (es : List DnsEntry)
    → p e ≡ true
    → any p (pre ++ e ∷ es) ≡ true
unfolding any
any_here p [] e es h = rw h
any_here p (x ∷ pre) e es h = ground (arith, any_here p pre e es h)

ok_injective : {A : Type 0} {x y : A} → ok x ≡ ok y → x ≡ y
ok_injective h = cc

module _ (host_addr bridge_addr : Result Text) where
  -- the lines that entries lead to
  unfoldable pub entry_lines : List DnsEntry → Result (List Text)
  entry_lines [] = ok []
  entry_lines (entry ∷ entries) = do
    ip_address ← entry_addr host_addr bridge_addr entry.ip_address
    rest ← entry_lines entries
    ok ((entry_start entry ++ ip_address) ∷ rest)

  add_entries_lem :
      (content : Text) (es : List DnsEntry) (ls : List Text)
      → entry_lines es ≡ ok ls
      → add_entries host_addr bridge_addr content es ≡ ok (content ++ unlines ls)
  unfolding add_entries entry_lines unlines
  add_entries_lem content [] ls h =
      ap ok (sym (append-nil content) ∙ ap (λ t. content ++ unlines t) (ok_injective h))
  add_entries_lem content (e ∷ es) ls h =
      elim (Result-cases (entry_addr host_addr bridge_addr e.ip_address)) [
        | inr (x, a) ↦ cc (rw a at h)
        | inl (ip, a) ↦ elim (Result-cases (entry_lines es)) [
          | inr (x, r) ↦ cc (rw (a, r) at h)
          | inl (rest, r) ↦
              let q : (entry_start e ++ ip) ∷ rest ≡ ls = ok_injective (rw (a, r) at h) in
              rw a (
                add_entries_lem (content ++ ((entry_start e ++ ip) ++ 10 ∷ [])) es rest r
                ∙ ap ok (
                    append_assoc content ((entry_start e ++ ip) ++ 10 ∷ []) (unlines rest)
                    ∙ ap (λ t. content ++ t)
                        (append_assoc (entry_start e ++ ip) (10 ∷ []) (unlines rest))
                    ∙ ap (λ t. content ++ unlines t) q))
        ]
      ]

  -- no line of an entry of the rule is left
  retain_own :
      (rule : ResourceDnsRule) (pre es : List DnsEntry) (own : List Text)
      → rule.entries ≡ pre ++ es
      → entry_lines es ≡ ok own
      → retain (λ l. not (is_of rule l)) own ≡ []
  unfolding entry_lines retain
  retain_own rule pre [] own k h = ap (retain (λ l. not (is_of rule l))) (sym (ok_injective h))
  retain_own rule pre (e ∷ es) own k h =
      elim (Result-cases (entry_addr host_addr bridge_addr e.ip_address)) [
        | inr (x, a) ↦ cc (rw a at h)
        | inl (ip, a) ↦ elim (Result-cases (entry_lines es)) [
          | inr (x, r) ↦ cc (rw (a, r) at h)
          | inl (rest, r) ↦
              let q : (entry_start e ++ ip) ∷ rest ≡ own = ok_injective (rw (a, r) at h) in
              let line = entry_start e ++ ip in
              let here : is_of rule line ≡ true =
                ap (any (λ entry. starts_with (entry_start entry) line)) k
                ∙ any_here (λ entry. starts_with (entry_start entry) line) pre e es
                    (starts_with-append (entry_start e) ip) in
              ap (retain (λ l. not (is_of rule l))) (sym q)
              ∙ rw here (
                  retain_own rule (pre ++ e ∷ []) es rest (k ∙ sym (append_assoc pre (e ∷ []) es))
                    r)
        ]
      ]

  entry_lines-append :
      (xs ys : List DnsEntry) (own rest : List Text)
      → entry_lines xs ≡ ok own
      → entry_lines ys ≡ ok rest
      → entry_lines (xs ++ ys) ≡ ok (own ++ rest)
  unfolding entry_lines
  entry_lines-append [] ys own rest h k = k ∙ ap (λ t. ok (t ++ rest)) (ok_injective h)
  entry_lines-append (e ∷ xs) ys own rest h k =
      elim (Result-cases (entry_addr host_addr bridge_addr e.ip_address)) [
        | inr (x, a) ↦ cc (rw a at h)
        | inl (ip, a) ↦ elim (Result-cases (entry_lines xs)) [
          | inr (x, r) ↦ cc (rw (a, r) at h)
          | inl (ls, r) ↦
              let q : (entry_start e ++ ip) ∷ ls ≡ own = ok_injective (rw (a, r) at h) in
              rw (a, entry_lines-append xs ys ls rest r k) (ap (λ t. ok (t ++ rest)) q)
        ]
      ]

  update_entries_lem :
      (rule : ResourceDnsRule) (others : List DnsEntry) (listen : Text) (ls : List Text)
      → get_network_addr host_addr bridge_addr rule.network ≡ ok listen
      → entry_lines (rule.entries ++ others) ≡ ok ls
      → update_entries host_addr bridge_addr rule others ≡ ok (unlines (header listen ++ ls))
  unfolding update_entries unlines
  update_entries_lem rule others listen ls n h = rw n (
      add_entries_lem _ (rule.entries ++ others) ls h
      ∙ ap (λ t. ok (codes "bind-dynamic" ++ 10 ∷ (codes "listen-address=" ++ t)))
          (append_assoc listen (10 ∷ []) (unlines ls)))

  retain-header :
      (rule : ResourceDnsRule) (listen : Text) (own rest : List Text)
      → entry_lines rule.entries ≡ ok own
      → retain (λ l. not (is_of rule l)) (header listen ++ (own ++ rest))
        ≡ header listen ++ retain (λ l. not (is_of rule l)) rest
  unfolding retain
  retain-header rule listen own rest h =
      rw
        (
          not_any rule.entries b'b' (codes "ind-dynamic") refl,
          not_any rule.entries b'l' (codes "isten-address=" ++ listen) refl,
        )
        (ap (λ t. header listen ++ t)
          (retain-append (λ l. not (is_of rule l)) own rest
            ∙ ap (λ t. t ++ retain (λ l. not (is_of rule l)) rest)
                (retain_own rule [] rule.entries own refl h)))

  -- When the lines of a rule and of the others that were found are written to a file, and the rule is then removed, the
  -- file is written with its first two lines and those lines of the others that no name of the rule
  -- matches; it is never removed. For lines without line breaks.
  pub remove_entries-update_entries :
      (rule : ResourceDnsRule) (others : List DnsEntry) (listen : Text) (own rest : List Text)
      → get_network_addr host_addr bridge_addr rule.network ≡ ok listen
      → entry_lines rule.entries ≡ ok own
      → entry_lines others ≡ ok rest
      → all is_line (header listen ++ (own ++ rest)) ≡ true
      → (update_entries host_addr bridge_addr rule others
          >>= remove_entries host_addr bridge_addr rule)
        ≡ ok (write_config (unlines (header listen ++ retain (λ l. not (is_of rule l)) rest)))
  unfolding remove_entries unlines ◌=ₜ◌
  remove_entries-update_entries rule others listen own rest n o r h = rw (
    update_entries_lem rule others listen (own ++ rest) n
        (entry_lines-append rule.entries others own rest o r),
    n,
    lines-unlines (header listen ++ (own ++ rest)) h,
    retain-header rule listen own rest o,
  )
