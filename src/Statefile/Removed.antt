-- ===== src/Statefile/Removed.antt =====
-- What removing the objects of a Statefile sends.
use nanocl.Prelude.{
  ℕ, Text, Bool, true, not, ◌&&◌, Option, none, is_none, some, List, [], ◌∷◌, All, ◌≡◌, inl, inr,
  unwrap_or,
}
use nanocl.Io.{Result, Result-cases, ok, err}
use nanocl.System.Action.{NativeEventAction}
use nanocl.System.Event.{EventActorKind, EventCondition}
use nanocl.Effect.{Effect, pure, ◌>>=◌}
use nanocl.Statefile.Objects.{Foreign}
use nanocl.Statefile.{Client, Request, StateRef, delete}
use nanocl.Statefile.Wait.{wait_process_state, wait_stream, waited_for}
use nanocl.Statefile.Apply.{namespace_of}
use nanocl.Statefile.Remove.{
  RemoveArg, job_arg, cargo_arg, vm_arg, resource_arg, secret_arg, object_name, get_query,
  waiter_kind, waiter_of, after_delete, rm_one, exec_rm, rm_each, state_remove,
}
use nanocl.Statefile.Logged.{
  IsLogged, same-Grown, Grown_trans, SendsOnly, pure-SendsOnly, send-Grown, then-SendsOnly,
  ignoring-SendsOnly, for_each-SendsOnly,
}
use nanocl.Statefile.Names.{names, has_name, all_named, All-imp}

-- The names of a Statefile that the command of an object removes.
module _ {F : Foreign} where
  unfoldable pub names_of : StateRef F → RemoveArg → List Text
  names_of st job_arg = names (λ j. j.name) st.content.jobs
  names_of st cargo_arg = names (λ g. g.name) st.content.cargoes
  names_of st vm_arg = names (λ v. v.name) st.content.virtual_machines
  names_of st resource_arg = names (λ r. r.name) st.content.resources
  names_of st secret_arg = names (λ s. s.name) st.content.secrets

  -- whether the Statefile has a list of the objects
  unfoldable pub is_defined : StateRef F → RemoveArg → Bool
  is_defined st job_arg = not (is_none st.content.jobs)
  is_defined st cargo_arg = not (is_none st.content.cargoes)
  is_defined st vm_arg = not (is_none st.content.virtual_machines)
  is_defined st resource_arg = not (is_none st.content.resources)
  is_defined st secret_arg = not (is_none st.content.secrets)

  -- the deletion of an object; only the query of a cargo has the namespace
  abbrev pub deletion : RemoveArg → Option Text → Text → Request F
  deletion arg namespace name = delete (object_name arg) name (get_query arg namespace)

  -- Only deletions of objects with a name of the Statefile.
  abbrev pub DeletesNamed : StateRef F → Request F → Type 0
  DeletesNamed st r =
      (arg : RemoveArg) × (name : Text) × (namespace : Option Text) × (r
        ≡ deletion arg namespace name)
      × (has_name (λ m. m) (names_of st arg) name ≡ true)

  -- whether the Statefile has the name of a job, and else has a list of the objects without the name
  unfoldable pub may_go : StateRef F → RemoveArg → Text → Bool
  unfolding names_of is_defined
  may_go st job_arg name = has_name (λ m. m) (names_of st job_arg) name
  may_go st arg name = is_defined st arg && not (has_name (λ m. m) (names_of st arg) name)

  -- Only deletions of objects that the Statefile does not name, and of the jobs that it names, those
  -- of cargoes in its namespace.
  abbrev pub DeletesOrphan : StateRef F → Request F → Type 0
  DeletesOrphan st r =
      (arg : RemoveArg) × (name : Text) × (r ≡ deletion arg (some (namespace_of st)) name)
      × (may_go st arg name ≡ true)

module _ {F : Foreign} {World : Type 0} (c : Client F World) (l : IsLogged c)
    (P : Request F → Type 0) where
  watch-SendsOnly : (x : List EventCondition) → SendsOnly c l P (c.watch_events x)
  watch-SendsOnly x = record { run = λ w. same-Grown P _ _ (l.watch_sent x w) }

  waiter-SendsOnly : (key : Text) (stream : ℕ) → SendsOnly c l P (wait_stream c key stream)
  waiter-SendsOnly key stream = record { run = λ w. same-Grown P _ _ (l.events_sent stream w) }

  after_delete-SendsOnly :
      (waiter : Effect World (Unit {0})) (r : Result (Unit {0}))
      → SendsOnly c l P waiter
      → SendsOnly c l P (after_delete c waiter r)
  after_delete-SendsOnly waiter (ok _) h = h
  after_delete-SendsOnly waiter (err _) h = pure-SendsOnly c l P tt

  delete-SendsOnly :
      (r : Request F) (waiter : Effect World (Unit {0}))
      → P r
      → SendsOnly c l P waiter
      → SendsOnly c l P (λ w. after_delete c waiter (c.send r w).0 (c.send r w).1)
  delete-SendsOnly r waiter p h = record {
    run = λ w.
        Grown_trans P _ _ _ (send-Grown c l P r w p)
          ((after_delete-SendsOnly waiter (c.send r w).0 h).run (c.send r w).1);
  }

  with_waiter-SendsOnly :
      (k : Text × Option EventActorKind) (r : Request F)
      → P r
      → SendsOnly c l P
          (waiter_of c k >>= λ waiter w. after_delete c waiter (c.send r w).0 (c.send r w).1)
  unfolding wait_process_state
  with_waiter-SendsOnly (key, none) r p = delete-SendsOnly r (pure tt) p (pure-SendsOnly c l P tt)
  with_waiter-SendsOnly (key, some kind) r p = record {
    run = λ w.
        let watched =
          c.watch_events (waited_for key kind (NativeEventAction.destroy ∷ []) ∷ []) w in
        let watch = (watch-SendsOnly _).run w in
        elim (Result-cases watched.0) [
          | inl (stream, h) ↦ rw h (
              Grown_trans P _ _ _ watch
                ((delete-SendsOnly r _ p (waiter-SendsOnly key stream)).run watched.1))
          | inr (x, h) ↦ rw h watch
        ];
  }

  rm_one-SendsOnly :
      (arg : RemoveArg) (namespace : Option Text) (name : Text)
      → P (deletion arg namespace name)
      → SendsOnly c l P (rm_one c arg namespace name)
  unfolding rm_one
  rm_one-SendsOnly arg namespace name p =
      with_waiter-SendsOnly (waiter_kind arg name namespace) (deletion arg namespace name) p

  rm_names-SendsOnly :
      (arg : RemoveArg) (namespace : Option Text) (xs : List Text)
      → All (λ n. P (deletion arg namespace n)) xs
      → All (λ n. SendsOnly c l P (rm_one c arg namespace n)) xs
  rm_names-SendsOnly arg namespace xs = All-imp _ _ xs (rm_one-SendsOnly arg namespace)

  rm_each-SendsOnly :
      (arg : RemoveArg) (namespace : Option Text) (o : Option (List Text))
      → ((n : Text) → has_name (λ m. m) (unwrap_or o []) n ≡ true → P (deletion arg namespace n))
      → SendsOnly c l P (rm_each c arg namespace o)
  unfolding exec_rm
  rm_each-SendsOnly arg namespace none h = pure-SendsOnly c l P tt
  rm_each-SendsOnly arg namespace (some xs) h = ignoring-SendsOnly c l P _ (
      for_each-SendsOnly c l P _ xs
        (rm_names-SendsOnly arg namespace xs (All-imp _ _ xs h (all_named xs))))

  pub state_remove-SendsOnly :
      (st : StateRef F)
      → ((arg : RemoveArg) (n : Text)
          → has_name (λ m. m) (names_of st arg) n ≡ true
          → P (deletion arg (some (namespace_of st)) n))
      → SendsOnly c l P (state_remove c st)
  unfolding state_remove names_of get_query
  state_remove-SendsOnly st h =
      let namespace = some (namespace_of st) in
      then-SendsOnly c l P _ _ (rm_each-SendsOnly job_arg none _ (h job_arg)) (
        then-SendsOnly c l P _ _ (rm_each-SendsOnly cargo_arg namespace _ (h cargo_arg)) (
          then-SendsOnly c l P _ _ (rm_each-SendsOnly vm_arg namespace _ (h vm_arg)) (
            then-SendsOnly c l P _ _ (rm_each-SendsOnly resource_arg none _ (h resource_arg))
              (rm_each-SendsOnly secret_arg none _ (h secret_arg)))))
