-- ===== src/Container/Image.antt =====
-- Pulling the image of a container: bin/nanocld/src/utils/container/image.rs. The registry behind
-- Docker and the credentials that a secret holds are a parameter.
pub mod Names
use nanocl.Prelude.{
  ℕ, Text, codes, Bool, true, false, ◌&&◌, leb, ◌+◌, Option, none, some, List, [], ◌∷◌, ◌++◌, map,
  split, if◌then◌else◌,
}
use nanocl.Io.{IoError, ErrorKind, Result, ok, err, with_context}
use nanocl.System.Action
use nanocl.System.Action.{NativeEventAction}
use nanocl.System.Event.{EventActor, EventActorKind, EventKind, Value, not_string}
use nanocl.Statefile.Objects.{ImagePullPolicy, never, always, if_not_present}
use nanocl.Effect.{Effect, pure, raise, reading, ◌>>=◌, ◌>>◌}
use nanocl.Backend.{Backend}
use nanocl.SystemState.{controller_name, spawn_emit_event}

-- An item of the stream of `create_image`: progress, or a failure with its text.
pub data Chunk : Type 0 where
  progress : Chunk
  pull_failed : Text → Chunk

pub record Registry (World Credentials : Type 0) : Type 0 where
  -- whether `inspect_image` succeeds
  pub has_image : Text → World → Bool
  -- the credentials that the data of a secret hold
  pub read_credentials : Text → World → Result Credentials
  -- of a name and a tag
  pub create_image : Text → Text → Option Credentials → World → List Chunk × World

abbrev lower_letter : ℕ → ℕ
lower_letter c = if leb 65 c && leb c 90 then c + 32 else c

abbrev pub to_ascii_lowercase : Text → Text
to_ascii_lowercase = map lower_letter

abbrev invalid_name : IoError
invalid_name = with_context ErrorKind.invalid_input (codes "ParseName") (codes "Invalid image name")

abbrev name_and_tag : List Text → Result (Text × Text)
name_and_tag (name ∷ tag ∷ []) = ok (to_ascii_lowercase name, to_ascii_lowercase tag)
name_and_tag _ = err invalid_name

unfoldable pub parse_name : Text → Result (Text × Text)
parse_name name = name_and_tag (split 58 name)

module _ {World : Type 0} (b : Backend World) where
  unfoldable pub emit_download_status :
      Option EventActor
      → Option EventActor
      → Text
      → NativeEventAction
      → EventKind
      → Option Value
      → Effect World (Unit {0})
  emit_download_status actor related note action kind metadata = spawn_emit_event b (record {
    reporting_controller = controller_name;
    reporting_node = b.hostname;
    action = Action.to_string action;
    reason = codes "state_sync";
    kind = kind;
    actor = actor;
    related = related;
    metadata = metadata;
    note = some note;
  })

  module _ {Credentials : Type 0} (r : Registry World Credentials) where
    unfoldable pub get_credentials : Option Text → Effect World (Option Credentials)
    get_credentials none = pure none
    get_credentials (some secret) = do
      credentials ← reading (r.read_credentials secret)
      pure (some credentials)

    abbrev image_actor : Text → Option EventActor
    image_actor image =
        some (record { key = some image; kind = EventActorKind.container_image; attributes = none })

    -- the loop over the chunks, and the event after it
    unfoldable pub follow : Text → EventActor → Text → List Chunk → Effect World (Unit {0})
    follow image related full_name [] =
        emit_download_status (image_actor image) (some related) full_name NativeEventAction.download
          EventKind.normal none
    follow image related full_name (pull_failed m ∷ chunks) =
        emit_download_status (image_actor image) (some related) m NativeEventAction.downloading
          EventKind.error none
        >> raise (with_context ErrorKind.invalid_data (codes "DownloadImage") m)
    follow image related full_name (progress ∷ chunks) =
        emit_download_status (image_actor image) (some related) full_name
          NativeEventAction.downloading EventKind.normal (some not_string)
        >> follow image related full_name chunks

    unfoldable pub pull : Text → Option Text → EventActor → Effect World (Unit {0})
    pull image secret actor = do
      credentials ← get_credentials secret
      (name, tag) ← reading (λ _. parse_name image)
      chunks ← λ w. let (chunks, w') = r.create_image name tag credentials w in (ok chunks, w')
      follow image actor (name ++ (codes ":" ++ tag)) chunks

    abbrev unless_there : Bool → Effect World (Unit {0}) → Effect World (Unit {0})
    unless_there true m = pure tt
    unless_there false m = m

    unfoldable pub download :
        Text → Option Text → ImagePullPolicy → EventActor → Effect World (Unit {0})
    download image secret always actor = pull image secret actor
    download image secret if_not_present actor =
        λ w. unless_there (r.has_image image w) (pull image secret actor) w
    download image secret never actor = pure tt
