-- ===== src/System/Status.antt =====
-- `ObjPsStatusKind` and its text form, which the status table stores.
use nanocl.Prelude.{
  Text, String, codes, match_text, ◌=ₜ◌, ◌≡◌, refl, ◌⊎◌, inl, inr, arith, List, [], ◌∷◌,
  print-match_text, ArmsPrint,
}
use nanocl.Io.{Result, ok}

pub data ObjPsStatusKind : Type 0 where
  create starting start updating update destroying destroy stopping stop fail finish unknown :
      ObjPsStatusKind

abbrev arms : List (String × ObjPsStatusKind)
arms =
    ("create", create)
    ∷ ("starting", starting)
    ∷ ("start", start)
    ∷ ("updating", updating)
    ∷ ("update", update)
    ∷ ("destroying", destroying)
    ∷ ("destroy", destroy)
    ∷ ("stopping", stopping)
    ∷ ("stop", stop)
    ∷ ("fail", fail)
    ∷ ("finish", finish)
    ∷ []

unfoldable pub from_str : Text → Result ObjPsStatusKind
from_str s = ok (match_text s arms unknown)

abbrev name : ObjPsStatusKind → String
name create = "create"
name starting = "starting"
name start = "start"
name updating = "updating"
name update = "update"
name destroying = "destroying"
name destroy = "destroy"
name stopping = "stopping"
name stop = "stop"
name fail = "fail"
name finish = "finish"
name unknown = "<unknown>"

unfoldable pub to_string : ObjPsStatusKind → Text
to_string k = codes (name k)

-- Every status is read back from its text.
pub from_str-to_string : (k : ObjPsStatusKind) → from_str (to_string k) ≡ ok k
unfolding from_str to_string match_text ◌=ₜ◌
from_str-to_string create = refl
from_str-to_string _ = refl

arms_print : ArmsPrint to_string arms
unfolding to_string
arms_print = refl

-- A text that is read as a known status is the text of that status.
pub to_string-from_str :
    (s : Text) (k : ObjPsStatusKind) → from_str s ≡ ok k → (to_string k ≡ s) ⊎ (k ≡ unknown)
unfolding from_str
to_string-from_str s k h = elim (print-match_text to_string s arms unknown arms_print) [
  | inl e ↦ inl (ground (arith, e))
  | inr e ↦ inr (ground (arith, e))
]

-- Two statuses with the same text are the same.
pub to_string_inj : (j k : ObjPsStatusKind) → to_string j ≡ to_string k → j ≡ k
to_string_inj j k e = cc (from_str-to_string j, from_str-to_string k)
