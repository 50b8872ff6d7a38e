-- ===== src/Container/Count/Meaning.antt =====
-- What the four numbers of `count_status` say of the instances.
use nanocl.Prelude.{
  ℕ, ◌+◌, suc, Text, ◌=ₜ◌, Bool, true, false, ◌||◌, ◌&&◌, not, Option, none, some, List, [], ◌∷◌,
  ◌∙◌, all, any, length, is_empty, is_none, if◌then◌else◌, unwrap_or, ◌≡◌, refl, ap, subst,
  Bool-cases, inl, inr, ◌↔◌, arith,
}
use nanocl.Process.{Process, ContainerState, ExitCode}
use nanocl.Container.Count.{
  Counts, count_status, count_from, count_instance, default_state, never, is_zero,
}

abbrev pub state_of : Process → ContainerState
state_of p = unwrap_or p.state default_state

abbrev pub is_restarting : Process → Bool
is_restarting p = unwrap_or (state_of p).restarting false

-- Docker says that it runs, or it has a finish time that says it has not finished.
unfoldable pub is_running : Process → Bool
is_running p =
    not (is_restarting p)
    && (unwrap_or (state_of p).running false || unwrap_or (state_of p).finished_at [] =ₜ never)

unfoldable pub is_finished : Process → Bool
is_finished p = not (is_restarting p) && not (is_running p)

abbrev bad_exit : Option ExitCode → Bool
bad_exit none = false
bad_exit (some code) = not (is_zero code)

abbrev good_exit : Option ExitCode → Bool
good_exit none = false
good_exit (some code) = is_zero code

abbrev has_error : Option Text → Bool
has_error none = false
has_error (some e) = not (is_empty e)

unfoldable pub is_failed : Process → Bool
is_failed p =
    is_restarting p
    || (is_finished p && (bad_exit (state_of p).exit_code || has_error (state_of p).error))

unfoldable pub is_success : Process → Bool
is_success p = is_finished p && good_exit (state_of p).exit_code

abbrev to_ℕ : Bool → ℕ
to_ℕ b = if b then 1 else 0

-- How often an instance counts as failed: a finished one for its exit code and for its error.
unfoldable pub failures : Process → ℕ
failures p =
    if is_restarting p
    then 1
    else if is_finished p
    then to_ℕ (bad_exit (state_of p).exit_code) + to_ℕ (has_error (state_of p).error)
    else 0

-- An instance that neither restarts nor runs has a finish time.
unfoldable pub has_end : Process → Bool
has_end p =
    is_restarting p
    || (unwrap_or (state_of p).running false || not (is_none (state_of p).finished_at))

unfoldable pub count {ℓ} : {A : Type ℓ} → (A → Bool) → List A → ℕ
count p [] = 0
count p (x ∷ xs) = let rest = count p xs in if p x then suc rest else rest

unfoldable pub total_failures : List Process → ℕ
total_failures [] = 0
total_failures (p ∷ ps) = failures p + total_failures ps

abbrev after : Process → Counts → Counts
after p c = record {
  failed = c.failed + failures p;
  success = c.success + to_ℕ (is_success p);
  running = c.running + to_ℕ (is_running p);
}

count_instance_lem :
    (p : Process) (c : Counts) → count_instance p c ≡ (if has_end p then some (after p c) else none)
unfolding count_instance has_end is_success failures is_running is_finished
count_instance_lem p c = ground arith

count_from_lem :
    (c : Counts) (ps : List Process)
    → count_from c ps ≡ (
        if all has_end ps
        then some (record {
          failed = c.failed + total_failures ps;
          success = c.success + count is_success ps;
          running = c.running + count is_running ps;
        })
        else none)
unfolding count_from all total_failures count
count_from_lem c [] = ground arith
count_from_lem c (p ∷ ps) = ground (arith, count_instance_lem p c, count_from_lem (after p c) ps)

-- The numbers are the instances, their failures, the successes and the running ones; the count
-- panics exactly when an instance that neither restarts nor runs has no finish time.
pub count_status_lem :
    (ps : List Process)
    → count_status ps ≡ (
        if all has_end ps
        then some (length ps, total_failures ps, count is_success ps, count is_running ps)
        else none)
unfolding count_status
count_status_lem ps =
    ground (arith, count_from_lem (record { failed = 0; success = 0; running = 0 }) ps)

failures-eq-zero_iff : (p : Process) → (failures p ≡ 0) ↔ (is_failed p ≡ false)
unfolding failures is_failed is_finished
failures-eq-zero_iff p = ground arith

pub total_failures-eq-zero_iff :
    (ps : List Process) → (total_failures ps ≡ 0) ↔ (any is_failed ps ≡ false)
unfolding total_failures any
total_failures-eq-zero_iff [] = (λ _. refl, λ _. refl)
total_failures-eq-zero_iff (p ∷ ps) =
    ground (arith, failures-eq-zero_iff p, total_failures-eq-zero_iff ps)

abbrev failed_of : Option (ℕ × ℕ × ℕ × ℕ) → ℕ
failed_of none = 0
failed_of (some c) = c.1

-- When the count does not panic, no failure is counted exactly when no instance has failed.
pub count_status-failed :
    (ps : List Process) (n f s r : ℕ)
    → count_status ps ≡ some (n, f, s, r)
    → (f ≡ 0) ↔ (any is_failed ps ≡ false)
count_status-failed ps n f s r h = elim (Bool-cases (all has_end ps)) [
  | inr e ↦ cc (rw (count_status_lem ps, e) at h)
  | inl e ↦
      let q : total_failures ps ≡ f = ap failed_of (rw (count_status_lem ps, e) at h) in
      subst (λ f. (f ≡ 0) ↔ (any is_failed ps ≡ false)) q (total_failures-eq-zero_iff ps)
]

-- A finished instance with a bad exit code and an error message is one instance and two failures.
pub count_status_double :
    (p : Process)
    → is_finished p ≡ true
    → has_end p ≡ true
    → bad_exit (state_of p).exit_code ≡ true
    → has_error (state_of p).error ≡ true
    → count_status (p ∷ []) ≡ some (1, 2, 0, 0)
unfolding all total_failures count failures is_success is_running is_finished
count_status_double p f e b h = count_status_lem (p ∷ []) ∙ ground arith
