-- ===== src/Container/Create/Unseen.antt =====
-- Creating the containers of a cargo changes no status, sends no event and calls Docker for nothing
-- but to create them.
use nanocl.Prelude.{ℕ, Text, Bool, true, false, List, [], ◌∷◌, ◌≡◌, refl, ◌∙◌, inl, inr}
use nanocl.Io.{Result, Result-cases}
use nanocl.Process.{Process, ProcessKind}
use nanocl.Workload.{Cargo}
use nanocl.Effect.{Effect, reading, run_ordered, ◌>>=◌, ◌>>◌}
use nanocl.Backend.{Backend}
use nanocl.Backend.Laws.{IsLawful}
use nanocl.Container.Delete.Destroyed.{IsUnseen}
use nanocl.Container.Create.{
  Builder, create, create_instance, create_process, unless_refused, short_id, is_auto_removed,
  cargo_container_name, instance_config, range,
}
use nanocl.Workload.{Config}

-- Creating containers is no call of those that are written down, and changes no status.
pub record IsQuiet {World : Type 0} (b : Backend World) (l : IsLawful b) (u : Builder World)
    : Type 0 where
  pub download_see :
      (image : Text) (secret : _) (policy : _) (w : World)
      → l.see (u.download image secret policy w).1 ≡ l.see w
  pub secrets_see :
      (key : Text) (kind : _) (secrets : _) (w : World)
      → l.see (u.create_tls_secrets key kind secrets w).1 ≡ l.see w
  pub id_see : (w : World) → l.see (u.generate_short_id w).1 ≡ l.see w
  pub create_see :
      (name : Text) (config : _) (w : World) → l.see (u.create_container name config w).1 ≡ l.see w
  pub create_from_see :
      (id name : Text) (kind : _) (p : Process) (node key : Text) (w : World)
      → l.see (u.create_from id name kind p node key w).1 ≡ l.see w
  pub wait_see : (name : Text) (w : World) → l.see (u.wait_container name w).1 ≡ l.see w

module _ {World : Type 0} (b : Backend World) (l : IsLawful b) where
  pub bind-IsUnseen :
      {A B : Type 0} (m : Effect World A) (f : A → Effect World B)
      → IsUnseen b l m
      → ((a : A) → IsUnseen b l (f a))
      → IsUnseen b l (m >>= f)
  bind-IsUnseen m f hm hf = record {
    run = λ w. elim (Result-cases (m w).0) [
      | inl (a, h) ↦ rw h ((hf a).run (m w).1 ∙ hm.run w)
      | inr (e, h) ↦ rw h (hm.run w)
    ];
  }

  pub then-IsUnseen :
      {A B : Type 0} (m : Effect World A) (n : Effect World B)
      → IsUnseen b l m
      → IsUnseen b l n
      → IsUnseen b l (m >> n)
  then-IsUnseen m n hm hn = record { run = λ w. (bind-IsUnseen m (λ _. n) hm (λ _. hn)).run w }

  pub reading-IsUnseen : {A : Type 0} (f : World → Result A) → IsUnseen b l (reading f)
  reading-IsUnseen f = record { run = λ w. refl }

  run_ordered-IsUnseen :
      {A B : Type 0} (f : A → Effect World B) (xs : List A)
      → ((x : A) → IsUnseen b l (f x))
      → IsUnseen b l (run_ordered f xs)
  unfolding run_ordered
  run_ordered-IsUnseen f [] h = record { run = λ w. refl }
  run_ordered-IsUnseen f (x ∷ xs) h = record {
    run = λ w. (run_ordered-IsUnseen f xs h).run (f x w).1 ∙ (h x).run w;
  }

  module _ (u : Builder World) (q : IsQuiet b l u) where
    pub create_process-IsUnseen :
        (kind : ProcessKind) (name key : Text) (item : Config)
        → IsUnseen b l (create_process b u kind name key item)
    unfolding create_process
    create_process-IsUnseen kind name key item =
        bind-IsUnseen _ _ (record { run = q.create_see _ _ })
          λ id.
            bind-IsUnseen _ _ (reading-IsUnseen (b.inspect_container id))
              λ p. record { run = q.create_from_see _ _ _ _ _ _ }

    unless_refused-IsUnseen :
        (refused : Bool) (m : Effect World Process)
        → IsUnseen b l m
        → IsUnseen b l (unless_refused b u refused m)
    unless_refused-IsUnseen true m h = record { run = λ w. refl }
    unless_refused-IsUnseen false m h = h

    create_instance-IsUnseen :
        (cargo : Cargo) (env : List Text) (dir : Text) (current : ℕ)
        → IsUnseen b l (create_instance b u cargo env dir current)
    unfolding create_instance
    create_instance-IsUnseen cargo env dir current =
        bind-IsUnseen (short_id b u) _ (record { run = q.id_see })
          λ id. unless_refused-IsUnseen (is_auto_removed cargo) _ (
            create_process-IsUnseen ProcessKind.cargo (cargo_container_name cargo id)
              cargo.cargo_key (instance_config b u cargo env dir current))

    pub create-IsUnseen : (cargo : Cargo) (number : ℕ) → IsUnseen b l (create b u cargo number)
    unfolding create
    create-IsUnseen cargo number =
        bind-IsUnseen _ _ (reading-IsUnseen (u.inject_data cargo)) λ cargo'.
          then-IsUnseen _ _ (record { run = q.download_see _ _ _ })
            (bind-IsUnseen _ _ (reading-IsUnseen (u.load_env_secrets cargo'.secrets)) λ env.
              bind-IsUnseen _ _ (record { run = q.secrets_see _ _ _ })
                λ dir.
                  run_ordered-IsUnseen _ (range 0 number) (create_instance-IsUnseen cargo' env dir))
