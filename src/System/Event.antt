-- ===== src/System/Event.antt =====
-- Events, their actors, and the conditions that a subscriber sets on them.
use nanocl.Prelude.{
  ℕ, Text, codes, match_text, ◌=ₜ◌, ◌≡◌, refl, Bool, false, ◌&&◌, decide, Option, none, some,
  String, List, [], ◌∷◌, ◌++◌, any,
}
use nanocl.Io.{Result, ok, err, IoError, ErrorKind}
use nanocl.System.Action
use nanocl.System.Action.{NativeEventAction, ◌==ₐ◌}

pub data EventKind : Type 0 where
  error normal warning : EventKind

pub EventKind-discrete : Discrete EventKind
EventKind-discrete = hlevel

invalid_kind : Text → IoError
invalid_kind s = record {
  context = none;
  kind = ErrorKind.invalid_input;
  message = codes "invalid event kind: " ++ s;
}

abbrev kind_arms : List (String × Option EventKind)
kind_arms = ("error", some error) ∷ ("normal", some normal) ∷ ("warning", some warning) ∷ []

abbrev or_invalid : Text → Option EventKind → Result EventKind
or_invalid s none = err (invalid_kind s)
or_invalid s (some k) = ok k

unfoldable pub kind_from_str : Text → Result EventKind
unfolding invalid_kind
kind_from_str s = or_invalid s (match_text s kind_arms none)

unfoldable pub kind_to_string : EventKind → Text
kind_to_string error = codes "error"
kind_to_string normal = codes "normal"
kind_to_string warning = codes "warning"

pub data EventActorKind : Type 0 where
  namespace cargo vm job resource secret process container_image : EventActorKind

pub EventActorKind-discrete : Discrete EventActorKind
EventActorKind-discrete = hlevel

unfoldable pub actor_kind_to_string : EventActorKind → Text
actor_kind_to_string namespace = codes "Namespace"
actor_kind_to_string cargo = codes "Cargo"
actor_kind_to_string vm = codes "Vm"
actor_kind_to_string job = codes "Job"
actor_kind_to_string resource = codes "Resource"
actor_kind_to_string secret = codes "Secret"
actor_kind_to_string process = codes "Process"
actor_kind_to_string container_image = codes "ContainerImage"

-- A JSON value, of which the daemon asks only whether it is a text.
pub data Value : Type 0 where
  string : Text → Value
  not_string : Value

pub record EventActor : Type 0 where
  pub key : Option Text
  pub kind : EventActorKind
  pub attributes : Option (List (Text × Value))

pub record EventPartial : Type 0 where
  pub reporting_node : Text
  pub reporting_controller : Text
  pub kind : EventKind
  pub action : Text
  pub reason : Text
  pub note : Option Text
  pub actor : Option EventActor
  pub related : Option EventActor
  pub metadata : Option Value

-- Times are seconds.
pub record Event : Type 0 where
  pub key : Text
  pub created_at : ℕ
  pub expires_at : ℕ
  pub reporting_node : Text
  pub reporting_controller : Text
  pub kind : EventKind
  pub action : Text
  pub reason : Text
  pub note : Option Text
  pub actor : Option EventActor
  pub related : Option EventActor
  pub metadata : Option Value

pub record EventCondition : Type 0 where
  pub actor_key : Option Text
  pub actor_kind : Option EventActorKind
  pub related_key : Option Text
  pub related_kind : Option EventActorKind
  pub kind : List EventKind
  pub action : List NativeEventAction

abbrev same_kind : Option EventActorKind → EventActorKind → Bool
same_kind none k = false
same_kind (some a) k = decide (EventActorKind-discrete a k)

abbrev same_key : Option Text → Text → Bool
same_key none k = false
same_key (some a) k = a =ₜ k

-- The conjunction at the end of `eq`, once the event has an actor, a key and an action.
fits : EventCondition → EventActorKind → Text → EventKind → NativeEventAction → Bool
fits c actor_kind key kind action =
    same_kind c.actor_kind actor_kind
    && (same_key c.actor_key key
        && (any (λ k. decide (EventKind-discrete k kind)) c.kind
            && any (λ a. a ==ₐ action) c.action))

fits_result : EventCondition → EventActorKind → Text → EventKind → Result NativeEventAction → Bool
fits_result c actor_kind key kind (ok action) = fits c actor_kind key kind action
fits_result c actor_kind key kind (err _) = false

fits_key : EventCondition → EventActorKind → Option Text → EventKind → Text → Bool
fits_key c actor_kind none kind action = false
fits_key c actor_kind (some key) kind action =
    fits_result c actor_kind key kind (Action.from_str action)

fits_actor : EventCondition → Option EventActor → EventKind → Text → Bool
fits_actor c none kind action = false
fits_actor c (some actor) kind action = fits_key c actor.kind actor.key kind action

-- `condition == event`
unfoldable pub meets : EventCondition → Event → Bool
unfolding fits_actor fits_key fits_result fits EventKind-discrete EventActorKind-discrete ◌==ₐ◌
meets c e = fits_actor c e.actor e.kind e.action

-- Every event kind is read back from its text.
pub kind_from_str-to_string : (k : EventKind) → kind_from_str (kind_to_string k) ≡ ok k
unfolding kind_from_str kind_to_string match_text ◌=ₜ◌
kind_from_str-to_string error = refl
kind_from_str-to_string _ = refl
