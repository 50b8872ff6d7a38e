-- ===== src/Container/Image/Names.antt =====
-- The names of images.
use nanocl.Prelude.{
  Bool, true, false, all, ◌↔◌, Text, List, [], ◌∷◌, ◌++◌, split-append, split-Lacks, Lacks, ◌≡◌,
  refl,
}
use nanocl.Io.{ok}
use nanocl.Container.Image.{
  parse_name, to_ascii_lowercase, Chunk, progress, pull_failed, Registry, follow,
  emit_download_status,
}
use nanocl.Backend.{Backend}
use nanocl.System.Event.{EventActor}
use nanocl.SystemState.{spawn_emit_event}

-- A name and a tag without a colon, with a colon between them, are read as they are, in small
-- letters.
parse_name_lem :
    (name tag : Text)
    → Lacks 58 name
    → Lacks 58 tag
    → parse_name (name ++ 58 ∷ tag) ≡ ok (to_ascii_lowercase name, to_ascii_lowercase tag)
unfolding parse_name
parse_name_lem name tag h k = rw (split-append 58 name tag h, split-Lacks 58 tag k)

-- A name without a tag is refused.
parse_name-untagged : (name : Text) (r : Text × Text) → Lacks 58 name → ¬ (parse_name name ≡ ok r)
unfolding parse_name
parse_name-untagged name r h e = cc (rw (split-Lacks 58 name h) at e)

abbrev is_progress : Chunk → Bool
is_progress progress = true
is_progress (pull_failed _) = false

-- The chunks of a pull lead to success exactly if none of them is a failure; what the events of the
-- pull meet has no influence.
module _ {World Credentials : Type 0} (b : Backend World) (r : Registry World Credentials)
    (image : Text) (related : EventActor) (full_name : Text) where
  follow-ok :
      (chunks : List Chunk) (w : World)
      → ((follow b r image related full_name chunks w).0 ≡ ok tt) ↔ (all is_progress chunks ≡ true)
  unfolding follow all emit_download_status spawn_emit_event
  follow-ok [] w = (λ _. refl, λ _. refl)
  follow-ok (pull_failed m ∷ chunks) w = (λ h. cc, λ h. cc)
  follow-ok (progress ∷ chunks) w = follow-ok chunks _
