-- ===== src/Proxy/Targets.antt =====
-- Which containers a proxy rule reaches.
use nanocl.Prelude.{
  Text, codes, all, ◌=ₜ◌, split, split-append, split-Lacks, Lacks, starts_with-append, List, [],
  ◌∷◌, ◌++◌, map, append_assoc, ◌≡◌, refl, sym, ap, ◌∙◌,
}
use nanocl.Io.{ok}
use nanocl.Key.{gen_key}
use nanocl.Container.Cargo.{tmp_name}
use nanocl.Proxy.{
  Instance, parse_upstream_target, instance_address, addresses_of, get_addresses, or_no_address,
  Nginx, NginxRuleKind, UpstreamTarget, gen_upstream, write_upstream,
}
use nanocl.Effect.{reading, ◌>>=◌}

-- If a name, a namespace and a kind have no dot, the target that joins the key of the object and
-- the kind is read back as these three.
pub parse_upstream_target-gen_key :
    (name namespace kind : Text)
    → Lacks b'.' name
    → Lacks b'.' namespace
    → Lacks b'.' kind
    → parse_upstream_target (gen_key namespace name ++ b'.' ∷ kind) ≡ ok (name, namespace, kind)
unfolding parse_upstream_target gen_key
parse_upstream_target-gen_key name namespace kind n s k =
    let key : split b'.' ((name ++ b'.' ∷ namespace) ++ b'.' ∷ kind)
        ≡ name ∷ namespace ∷ kind ∷ [] =
      ap (split b'.') (append_assoc name (b'.' ∷ namespace) (b'.' ∷ kind))
      ∙ split-append b'.' name (namespace ++ b'.' ∷ kind) n
      ∙ ap (λ l. name ∷ l)
          (split-append b'.' namespace kind s
            ∙ ap (λ l. namespace ∷ l) (split-Lacks b'.' kind k)) in
    rw key refl

-- an instance with the name that an update gives to the old ones
abbrev pub flag : Instance → Instance
flag p = record p { name = tmp_name p.name }

instance_address-flag : (network : Text) (p : Instance) → instance_address network (flag p) ≡ []
unfolding instance_address
instance_address-flag network p = rw (starts_with-append (codes "tmp-") p.name) refl

addresses_of-append :
    (network : Text) (ps qs : List Instance)
    → addresses_of network (ps ++ qs) ≡ addresses_of network ps ++ addresses_of network qs
unfolding addresses_of
addresses_of-append network [] qs = refl
addresses_of-append network (p ∷ ps) qs =
    ap (λ l. instance_address network p ++ l) (addresses_of-append network ps qs)
    ∙ sym (
        append_assoc (instance_address network p) (addresses_of network ps)
          (addresses_of network qs))

addresses_of-flag : (network : Text) (ps : List Instance) → addresses_of network (map flag ps) ≡ []
unfolding addresses_of
addresses_of-flag network [] = refl
addresses_of-flag network (p ∷ ps) =
    rw (instance_address-flag network p) (addresses_of-flag network ps)

-- The instances that an update has renamed are reached by no rule: the addresses are those of the
-- others.
pub get_addresses-flag :
    (network : Text) (old new : List Instance)
    → get_addresses network (map flag old ++ new) ≡ get_addresses network new
unfolding get_addresses
get_addresses-flag network old new = ap (or_no_address network) (
    addresses_of-append network (map flag old) new
    ∙ ap (λ l. l ++ addresses_of network new) (addresses_of-flag network old))

c-Lacks : Lacks b'.' (codes "c")
unfolding all
c-Lacks = refl

-- A target that joins the key of a cargo and its kind, for a name and a namespace without dots,
-- makes an upstream of the addresses of the instances of this cargo, as the daemon returns them.
pub gen_upstream-gen_key :
    {World : Type 0} (x : Nginx World) (target : UpstreamTarget) (kind : NginxRuleKind)
    (name namespace : Text) (w : World)
    → Lacks b'.' name
    → Lacks b'.' namespace
    → target.key ≡ gen_key namespace name ++ codes ".c"
    → gen_upstream x target kind w
      ≡ (reading (x.inspect_cargo name namespace)
            >>= write_upstream x (codes "-cargo") kind target.port)
          w
unfolding gen_upstream ◌=ₜ◌
gen_upstream-gen_key x target kind name namespace w n s key =
    let parsed =
      ap parse_upstream_target key
      ∙ parse_upstream_target-gen_key name namespace (codes "c") n s c-Lacks in
    rw parsed refl
