-- ===== src/System/Action.antt =====
-- `NativeEventAction` and its text form, which events carry.
use nanocl.Prelude.{
  Text, String, codes, match_text, ◌=ₜ◌, ◌≡◌, refl, ap, ◌∙◌, Bool, decide, inl, inr, List, [], ◌∷◌,
  print-match_text, ArmsPrint,
}
use native.Mathlib.Decide.{ℕ_discrete}
use nanocl.Io.{Result, ok}

pub data NativeEventAction : Type 0 where
  create starting start updating update destroying destroy stopping stop restart finish fail die
        downloading download :
      NativeEventAction
  other : Text → NativeEventAction

abbrev arms : List (String × NativeEventAction)
arms =
    ("create", create)
    ∷ ("starting", starting)
    ∷ ("start", start)
    ∷ ("updating", updating)
    ∷ ("update", update)
    ∷ ("destroying", destroying)
    ∷ ("destroy", destroy)
    ∷ ("stopping", stopping)
    ∷ ("stop", stop)
    ∷ ("restart", restart)
    ∷ ("finish", finish)
    ∷ ("fail", fail)
    ∷ ("die", die)
    ∷ ("downloading", downloading)
    ∷ ("download", download)
    ∷ []

unfoldable pub from_str : Text → Result NativeEventAction
from_str s = ok (match_text s arms (other s))

unfoldable pub to_string : NativeEventAction → Text
to_string create = codes "create"
to_string starting = codes "starting"
to_string start = codes "start"
to_string updating = codes "updating"
to_string update = codes "update"
to_string stopping = codes "stopping"
to_string stop = codes "stop"
to_string destroying = codes "destroying"
to_string destroy = codes "destroy"
to_string restart = codes "restart"
to_string finish = codes "finish"
to_string fail = codes "fail"
to_string die = codes "die"
to_string downloading = codes "downloading"
to_string download = codes "download"
to_string (other s) = s

NativeEventAction-discrete : Discrete NativeEventAction
NativeEventAction-discrete = hlevel ℕ_discrete

-- Rust's derived `PartialEq`
infix 50 ◌==ₐ◌
unfoldable pub ◌==ₐ◌ : NativeEventAction → NativeEventAction → Bool
unfolding NativeEventAction-discrete
a ==ₐ b = decide (NativeEventAction-discrete a b)

abbrev pub IsNative : NativeEventAction → Type 0
IsNative (other s) = ⊥
IsNative _ = Unit

-- Every action with a name of its own is read back from its text.
pub from_str-to_string : (a : NativeEventAction) → IsNative a → from_str (to_string a) ≡ ok a
unfolding from_str to_string match_text ◌=ₜ◌
from_str-to_string (other s) h = absurd h
from_str-to_string _ h = refl

arms_print : ArmsPrint to_string arms
unfolding to_string
arms_print = refl

-- No text is changed by reading it as an action and printing it.
pub to_string-from_str :
    (s : Text) → (a : NativeEventAction) × (from_str s ≡ ok a) × (to_string a ≡ s)
unfolding from_str
to_string-from_str s = (
  match_text s arms (other s),
  refl,
  elim (print-match_text to_string s arms (other s) arms_print) [
    | inl e ↦ e
    | inr e ↦ ap to_string e ∙ (unfold to_string in refl)
  ],
)
