-- ===== src/Resources/Accepted.antt =====
-- What is stored of a resource, and when.
use nanocl.Prelude.{
  Text, none, some, List, [], ◌∷◌, ◌++◌, ◌≡◌, refl, ap, subst, ◌∙◌, inl, inr, Option-cases,
}
use nanocl.Io.{ok, Result-cases}
use nanocl.Http.{HttpError, HttpResult, HttpResult-cases}
use nanocl.Http.Effect.{io}
use nanocl.Statefile.Objects.{Foreign, ResourcePartial, Resource}
use nanocl.Resources.{
  ResourceDb, SpecRow, ResourceKind, Registry, base_url, rule_url, apply_rule, applied,
}
use nanocl.Resources.Hooks.{
  parse_kind, current_kind, hook_create, refused_by, configured, client_result,
}
use nanocl.Resources.Stored.{already, create_from_spec, resource_row, fn_create_resource}

-- the calls that change tables or the rules of a controller
pub data Change (F : Foreign) : Type 0 where
  put_rule : Text → F.Value → Change F
  spec_created : SpecRow F → Change F
  row_created : ResourceDb → Change F

-- A log of those calls, whether they succeed or not.
pub record IsLogged {F : Foreign} {World : Type 0} (n : Registry F World) : Type 0 where
  pub log : World → List (Change F)
  pub new_log : (w : World) → log (n.new_v4 w).1 ≡ log w
  pub put_log :
      (url : Text) (x : F.Value) (w : World) → log (n.put url x w).1 ≡ log w ++ put_rule url x ∷ []
  pub spec_log :
      (x : SpecRow F) (w : World) → log (n.create_spec x w).1 ≡ log w ++ spec_created x ∷ []
  pub row_log :
      (x : ResourceDb) (w : World) → log (n.create_row x w).1 ≡ log w ++ row_created x ∷ []

module _ {F : Foreign} {World : Type 0} (n : Registry F World) where
  -- what a controller with a name answers to the rule of a resource, at an address
  abbrev pub answer : Text → Text → ResourcePartial F → World → HttpResult F.Value
  answer name url resource w = client_result (applied n name (n.put url resource.content w).0)

  -- The outcomes of the hook of a creation: the resource is refused, by its kind or by the controller
  -- that was asked; it is valid and its kind has no controller; or the controller answered what to
  -- store.
  pub data Hooked (resource : ResourcePartial F) (w : World) (before : List (Change F))
      : HttpResult (ResourcePartial F) → List (Change F) → Type 0 where
    refused : (e : HttpError) → Hooked resource w before (HttpResult.err e) before
    valid :
        (version : Text) (kind : ResourceKind F)
        → current_kind n resource.kind w ≡ ok (version, kind)
        → refused_by n kind.content.schema resource.content ≡ none
        → kind.content.url ≡ none
        → Hooked resource w before (HttpResult.ok resource) before
    unaccepted :
        (url : Text) (kind : ResourceKind F) (e : HttpError)
        → answer kind.name url resource w ≡ HttpResult.err e
        → Hooked resource w before (HttpResult.err e) (before ++ put_rule url resource.content ∷ [])
    accepted :
        (kind : ResourceKind F) (url base version : Text) (config : F.Value)
        → current_kind n resource.kind w ≡ ok (version, kind)
        → refused_by n kind.content.schema resource.content ≡ none
        → kind.content.url ≡ some url
        → answer kind.name (rule_url base version resource.name) resource w ≡ HttpResult.ok config
        → base_url url ≡ ok base
        → Hooked resource w before
            (HttpResult.ok (record resource { content = config }))
            (before ++ put_rule (rule_url base version resource.name) resource.content ∷ [])

  module _ (l : IsLogged n) (resource : ResourcePartial F) (w : World) where
    configured-Hooked :
        (version : Text) (kind : ResourceKind F)
        → current_kind n resource.kind w ≡ ok (version, kind)
        → refused_by n kind.content.schema resource.content ≡ none
        → let (r, after) = configured n kind.content.url version kind resource w in
          Hooked resource w (l.log w) r (l.log after)
    unfolding apply_rule
    configured-Hooked version kind k' s = elim (Option-cases kind.content.url) [
      | inl u ↦ rw u (valid version kind k' s u)
      | inr (url, u) ↦ elim (Result-cases (base_url url)) [
        | inr (e, k) ↦ rw (u, k) (refused _)
        | inl (base, k) ↦
            let rule = rule_url base version resource.name in
            let put = l.put_log rule resource.content w in
            elim (HttpResult-cases
              (client_result (applied n kind.name (n.put rule resource.content w).0))) [
                | inr (e, a) ↦ rw (u, k, a, put) (unaccepted rule kind e a)
                | inl (config, a) ↦
                    rw (u, k, a, put) (accepted kind url base version config k' s u a k)
              ]
      ]
    ]

    hook_create-Hooked :
        let (r, after) = hook_create n resource w in Hooked resource w (l.log w) r (l.log after)
    unfolding hook_create
    hook_create-Hooked = elim (Result-cases (current_kind n resource.kind w)) [
      | inr (e, k) ↦ rw k (refused _)
      | inl (p, k) ↦ elim (Option-cases (refused_by n p.1.content.schema resource.content)) [
        | inr (m, s) ↦ rw (k, s) (refused _)
        | inl s ↦ rw (k, s) (configured-Hooked p.0 p.1 k s)
      ]
    ]

  -- The outcomes of a creation: it failed and stored nothing; or a specification was stored, with what
  -- the hook gave, and maybe a row, and it failed; or both were stored.
  pub data Created (resource : ResourcePartial F) (w : World) (before : List (Change F))
      : HttpResult (Resource F) → List (Change F) → Type 0 where
    unstored :
        (r : HttpResult (ResourcePartial F)) (after : List (Change F)) (e : HttpError)
        → Hooked resource w before r after
        → Created resource w before (HttpResult.err e) after
    half :
        (config : ResourcePartial F) (after : List (Change F)) (row : SpecRow F) (e : HttpError)
        → Hooked resource w before (HttpResult.ok config) after
        → row.content ≡ config.content
        → Created resource w before (HttpResult.err e) (after ++ spec_created row ∷ [])
    lost :
        (config : ResourcePartial F) (after : List (Change F)) (row : SpecRow F) (r : ResourceDb)
        (e : HttpError)
        → Hooked resource w before (HttpResult.ok config) after
        → row.content ≡ config.content
        → Created resource w before
            (HttpResult.err e)
            ((after ++ spec_created row ∷ []) ++ row_created r ∷ [])
    created :
        (config : ResourcePartial F) (after : List (Change F)) (row : SpecRow F) (r : ResourceDb)
        (item : Resource F)
        → Hooked resource w before (HttpResult.ok config) after
        → row.content ≡ config.content
        → Created resource w before
            (HttpResult.ok item)
            ((after ++ spec_created row ∷ []) ++ row_created r ∷ [])

  module _ (l : IsLogged n) (resource : ResourcePartial F) (w0 : World)
      (before : List (Change F)) where
    stored-Created :
        (config : ResourcePartial F) (w : World)
        → Hooked resource w0 before (HttpResult.ok config) (l.log w)
        → let (r, after) = io (create_from_spec n config) w in
          Created resource w0 before r (l.log after)
    unfolding create_from_spec
    stored-Created config w h = elim (Result-cases (parse_kind n config.kind w)) [
      | inr (e, k) ↦ rw k (unstored _ _ _ h)
      | inl (p, k) ↦
          let (row, w1) = resource_row n config.name p.1 config w in
          let (stored, w2) = n.create_spec row w1 in
          let logged : l.log w2 ≡ l.log w ++ spec_created row ∷ [] =
            l.spec_log row w1 ∙ ap (λ s. s ++ spec_created row ∷ []) (l.new_log w) in
          elim (Result-cases stored) [
            | inr (e, c) ↦ rw (k, c, logged) (half config _ row _ h refl)
            | inl (spec, c) ↦
                let new : ResourceDb = record {
                  key = config.name;
                  created_at = n.now w2;
                  kind = p.0;
                  spec_key = spec.key;
                } in
                let all = l.row_log new w2 ∙ ap (λ s. s ++ row_created new ∷ []) logged in
                elim (Result-cases (n.create_row new w2).0) [
                  | inr (e, r) ↦ rw (k, c, r, all) (lost config _ row new _ h refl)
                  | inl (item, r) ↦ rw (k, c, r, all) (created config _ row new _ h refl)
                ]
          ]
    ]

  module _ (l : IsLogged n) (resource : ResourcePartial F) (w : World) where
    -- Creating a resource ends in one of these ways.
    pub fn_create_resource-Created :
        let (r, after) = fn_create_resource n resource w in
        Created resource w (l.log w) r (l.log after)
    unfolding fn_create_resource
    fn_create_resource-Created = elim (Result-cases (n.read_resource resource.name w)) [
      | inl (item, k) ↦ rw k (unstored _ _ _ (refused (already resource.name)))
      | inr (e, k) ↦
          let hooked = hook_create-Hooked l resource w in
          let w' = (hook_create n resource w).1 in
          elim (HttpResult-cases (hook_create n resource w).0) [
            | inr (x, h) ↦ rw (k, h) (unstored _ _ x hooked)
            | inl (config, h) ↦
                rw (k, h)
                  (stored-Created l resource w (l.log w) config w'
                    (subst (λ r. Hooked resource w (l.log w) r (l.log w')) h hooked))
          ]
    ]
