-- ===== src/Resources/Kinds.antt =====
-- The kind of a resource and its version.
use nanocl.Prelude.{Text, Lacks, split-Lacks, split-append, ◌∷◌, ◌++◌, ◌≡◌, sym, ap, ◌∙◌, inl, inr}
use nanocl.Io.{Result, ok, err, Result-cases}
use nanocl.Statefile.Objects.{Foreign, ResourcePartial, Resource}
use nanocl.Resources.{ResourceDb, SpecRow, ResourceKind, Registry, with_spec}
use nanocl.Resources.Hooks.{parse_kind, current_kind, read_kind_version, kind_of_spec}
use nanocl.Resources.Stored.{create_from_spec, create_resource_spec, resource_row}

-- Rows are stored as they were given.
pub record IsFaithful {F : Foreign} {World : Type 0} (n : Registry F World) : Type 0 where
  pub spec : (x y : SpecRow F) (w : World) → (n.create_spec x w).0 ≡ ok y → y ≡ x
  pub row : (x y : ResourceDb) (w : World) → (n.create_row x w).0 ≡ ok y → y ≡ x

version_of : {A : Type 0} → Result (Text × A) → Text → Text
version_of (ok p) _ = p.0
version_of (err _) v = v

resource_of : {F : Foreign} → Result (Resource F) → Resource F → Resource F
resource_of (ok r) _ = r
resource_of (err _) r = r

module _ {F : Foreign} {World : Type 0} (n : Registry F World) (domain kind : Text)
    (d : Lacks b'/' domain) (k : Lacks b'/' kind) where
  -- a kind without its version
  abbrev pub plain : Text
  plain = domain ++ b'/' ∷ kind

  parse_kind-plain : (w : World) → parse_kind n plain w ≡ read_kind_version n plain w
  unfolding parse_kind
  parse_kind-plain w = rw (split-append b'/' domain kind d, split-Lacks b'/' kind k)

  parse_kind-version :
      (version : Text) (w : World)
      → Lacks b'/' version
      → parse_kind n (domain ++ b'/' ∷ (kind ++ b'/' ∷ version)) w ≡ ok (plain, version)
  unfolding parse_kind
  parse_kind-version version w v = rw (
    split-append b'/' domain (kind ++ b'/' ∷ version) d,
    split-append b'/' kind version k,
    split-Lacks b'/' version v,
  )

  current_kind-plain :
      (w : World) (p : Text × ResourceKind F)
      → current_kind n plain w ≡ ok p
      → (row : SpecRow F) × (n.read_kind plain w ≡ ok row) × (p.0 ≡ row.version)
  unfolding version_of current_kind read_kind_version kind_of_spec
  current_kind-plain w p h = elim (Result-cases (n.read_kind plain w)) [
    | inr (e, r) ↦ cc (rw (parse_kind-plain w, r) at h)
    | inl (row, r) ↦ elim (Result-cases (n.kind_from_value row.content)) [
      | inr (e, c) ↦ cc (rw (parse_kind-plain w, r, c) at h)
      | inl (content, c) ↦ elim (Result-cases (n.get_version row.kind_key row.version w)) [
        | inr (e, g) ↦ cc (rw (parse_kind-plain w, r, c, g) at h)
        | inl (row', g) ↦ elim (Result-cases (n.kind_from_value row'.content)) [
          | inr (e, c') ↦ cc (rw (parse_kind-plain w, r, c, g, c') at h)
          | inl (content', c') ↦
              (row, r, sym (ap (λ z. version_of z p.0) (rw (parse_kind-plain w, r, c, g, c') at h)))
        ]
      ]
    ]
  ]

  -- A resource that was created with a version of a kind keeps the kind without the version; what is
  -- done for it later is done as the kind's last version says.
  pub create_from_spec-current :
      IsFaithful n
      → (version : Text) (item : ResourcePartial F) (w : World) (resource : Resource F)
      → Lacks b'/' version
      → item.kind ≡ domain ++ b'/' ∷ (kind ++ b'/' ∷ version)
      → (create_from_spec n item w).0 ≡ ok resource
      → (w' : World) (p : Text × ResourceKind F) → current_kind n resource.kind w' ≡ ok p
      → (resource.kind ≡ plain)
        × (resource.spec.version ≡ version)
        × ((row : SpecRow F) × (n.read_kind plain w' ≡ ok row) × (p.0 ≡ row.version))
  unfolding create_from_spec with_spec resource_of
  create_from_spec-current f version item w resource v e h w' p h' =
      let parsed : parse_kind n item.kind w ≡ ok (plain, version) =
        rw e (parse_kind-version version w v) in
      let spec = create_resource_spec n item.name version item w in
      elim (Result-cases spec.0) [
        | inr (x, a) ↦ cc (rw (parsed, a) at h)
        | inl (y, a) ↦
            let new : ResourceDb = record {
              key = item.name;
              created_at = n.now spec.1;
              kind = plain;
              spec_key = y.key;
            } in
            elim (Result-cases (n.create_row new spec.1).0) [
              | inr (x, c) ↦ cc (rw (parsed, a, c) at h)
              | inl (row, c) ↦
                  let made = rw (parsed, a, c) at h in
                  let kept : resource.kind ≡ plain =
                    sym (ap (λ z. (resource_of z resource).kind) made)
                    ∙ ap (λ z. z.kind) (f.row new row spec.1 c) in
                  let versioned : resource.spec.version ≡ version =
                    sym (ap (λ z. (resource_of z resource).spec.version) made)
                    ∙ ap (λ z. z.version)
                        (f.spec (resource_row n item.name version item w).0 y (n.new_v4 w).1 a) in
                  (
                    kept,
                    versioned,
                    current_kind-plain w' p (ap (λ z. current_kind n z w') (sym kept) ∙ h'),
                  )
            ]
      ]
