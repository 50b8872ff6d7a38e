-- ===== src/TaskManager/Serial/Invariant.antt =====
-- The invariant of the loop and its futures: a running task of a cargo or a machine is in the map, or
-- is about to be inserted.
use nanocl.Prelude.{
  ℕ, Text, codes, ◌=ₜ◌, =ₜ_sound, ◌==◌, starts_with, Bool, true, Bool-cases, ◌||◌, some, ==_iff,
  Option-cases, false≢true, ◌≡◌, ◌≢◌, refl, sym, ap, ◌∙◌, ◌⊎◌, inl, inr, some_injective,
}
use nanocl.System.Event.{EventActorKind, actor_kind_to_string, cargo, vm}
use nanocl.TaskManager.{
  ObjTask, Phase, running, finished, failing, ready, inserting, System, set, start, remove_task,
  leave, task_key, waits,
}

-- a key of tasks that the loop awaits
abbrev pub is_service : Text → Bool
is_service key = starts_with (codes "Cargo@") key || starts_with (codes "Vm@") key

pub is_service-task_key :
    (kind : EventActorKind) (key : Text) → is_service (task_key kind key) ≡ waits kind
unfolding actor_kind_to_string waits starts_with
is_service-task_key cargo key = refl
is_service-task_key vm key = refl
is_service-task_key _ key = refl

pub record Inv (s : System) : Type 0 where
  -- a running task is in the map, or is about to be inserted
  pub held :
      (id : ℕ)
      → s.phase id ≡ running
      → is_service (s.key_of id) ≡ true
      → ((t : ObjTask) × (s.tasks (s.key_of id) ≡ some t) × (t.fut ≡ id))
        ⊎ ((t : ObjTask) × (s.loop ≡ inserting (s.key_of id) t) × (t.fut ≡ id))
  pub clear :
      (key : Text) (id : ℕ)
      → s.loop ≡ ready key
      → is_service key ≡ true
      → s.key_of id ≡ key
      → s.phase id ≡ running
      → ⊥
  pub only :
      (key : Text) (t : ObjTask) (id : ℕ)
      → s.loop ≡ inserting key t
      → is_service key ≡ true
      → s.key_of id ≡ key
      → s.phase id ≡ running
      → id ≡ t.fut

pub start-Inv : Inv start
start-Inv = record { held = λ id h. cc; clear = λ key id h. cc; only = λ key t id h. cc }

pub finished≢running : finished ≢ running
finished≢running h = cc

pub failing≢running : failing ≢ running
failing≢running h = cc

-- Two futures that run the task of the same cargo or virtual machine are the same.
abbrev pub Single : System → Type 0
Single s =
    (i j : ℕ)
    → is_service (s.key_of i) ≡ true
    → s.phase i ≡ running
    → s.phase j ≡ running
    → s.key_of i ≡ s.key_of j
    → i ≡ j

pub Inv-Single : (s : System) → Inv s → Single s
Inv-Single s v i j k a b e =
    let k' : is_service (s.key_of j) ≡ true = ap is_service (sym e) ∙ k in
    elim (v.held i a k) [
      | inr (t, l, f) ↦ sym f ∙ sym (v.only (s.key_of i) t j l k (sym e) b)
      | inl (t, l, f) ↦ elim (v.held j b k') [
        | inr (u, m, g) ↦ v.only (s.key_of j) u i m k' e a ∙ g
        | inl (u, m, g) ↦
            let h : t ≡ u = some_injective (sym l ∙ ap s.tasks e ∙ m) in
            sym f ∙ ap (λ t. t.fut) h ∙ g
      ]
    ]

module _ (s : System) (v : Inv s) where
  -- futures that still run after one has ended
  pub set_running :
      (i : ℕ) (p : Phase) (j : ℕ)
      → p ≢ running
      → set i p s.phase j ≡ running
      → (s.phase j ≡ running) × (i ≢ j)
  set_running i p j n h = elim (Bool-cases (i == j)) [
    | inl e ↦ absurd (n (rw e at h))
    | inr e ↦ (rw e at h, λ q. false≢true (sym e ∙ (==_iff i j).1 q))
  ]

  pub remove-held :
      (key : Text) (j : ℕ)
      → ((k : Text) (t : ObjTask) → s.loop ≡ inserting k t → ⊥)
      → (remove_task key s).phase j ≡ running
      → is_service (s.key_of j) ≡ true
      → (t : ObjTask) × ((remove_task key s).tasks (s.key_of j) ≡ some t) × (t.fut ≡ j)
  remove-held key j quiet r k = elim (Option-cases (s.tasks key)) [
    | inl e ↦ elim (v.held j (rw e at r) k) [
      | inl (t, l, f) ↦ (t, rw e l, f)
      | inr (t, l, f) ↦ absurd (quiet (s.key_of j) t l)
    ]
    | inr (u, e) ↦
        let q = set_running u.fut finished j finished≢running (rw e at r) in
        elim (v.held j q.0 k) [
          | inr (t, l, f) ↦ absurd (quiet (s.key_of j) t l)
          | inl (t, l, f) ↦ elim (Bool-cases (key =ₜ s.key_of j)) [
            | inr n ↦ (t, rw (e, n) l, f)
            | inl m ↦ absurd (
                q.1 (
                  ap (λ t. t.fut)
                    (some_injective (sym e ∙ ap s.tasks (=ₜ_sound key (s.key_of j) m) ∙ l))
                  ∙ f))
          ]
        ]
  ]

  pub leave-held :
      (id : ℕ) (p : Phase) (j : ℕ)
      → s.phase id ≡ running
      → p ≢ running
      → (leave id p s).phase j ≡ running
      → is_service (s.key_of j) ≡ true
      → ((t : ObjTask) × ((leave id p s).tasks (s.key_of j) ≡ some t) × (t.fut ≡ j))
        ⊎ ((t : ObjTask) × (s.loop ≡ inserting (s.key_of j) t) × (t.fut ≡ j))
  leave-held id p j a n r k =
      let q = set_running id p j n r in
      elim (Bool-cases (s.key_of id =ₜ s.key_of j)) [
        | inl m ↦
            let e = =ₜ_sound (s.key_of id) (s.key_of j) m in
            absurd (q.1 (Inv-Single s v id j (ap is_service e ∙ k) a q.0 e))
        | inr m ↦ elim (v.held j q.0 k) [ inr x ↦ inr x | inl (t, l, f) ↦ inl (t, rw m l, f) ]
      ]

  pub leave-Inv : (id : ℕ) (p : Phase) → s.phase id ≡ running → p ≢ running → Inv (leave id p s)
  leave-Inv id p a n = record {
    held = λ j r k. leave-held id p j a n r k;
    clear = λ key j l k q r. v.clear key j l k q (set_running id p j n r).0;
    only = λ key t j l k q r. v.only key t j l k q (set_running id p j n r).0;
  }
