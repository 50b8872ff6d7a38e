-- ===== src/Tests/Includes.antt =====
-- Statefiles that include others.
use nanocl.Prelude.{
  Text, codes, Option, none, some, List, [], ◌∷◌, ◌≡◌, refl, starts_with, ◌=ₜ◌, if◌then◌else◌, ◌++◌,
}
use nanocl.Io.{ok}
use nanocl.Statefile.{SubState, StateRef, root_none, path}
use nanocl.Statefile.Parse.{Loader, parse_state_file_recurr, load_sub_state, full_sub_state_path}
use nanocl.Statefile.Nested.{no_leaf, leaf, parse-nested}
use nanocl.Tests.Client.{fields, json, Shell}
use nanocl.Tests.Statefiles.{both, empty}

-- Statefiles that are found by their location; `a` includes `b`, which includes `c` and `d`.
abbrev file : Text → Option (List (SubState json)) → StateRef json
file location subs = record {
  content = record (both.content) { sub_states = subs };
  root = root_none;
  location = location;
}

abbrev leaf_at : Text → StateRef json
leaf_at location = file location none

abbrev middle : StateRef json
middle = file (codes "b") (some (path (codes "c") ∷ path (codes "d") ∷ []))

abbrev top : StateRef json
top = file (codes "a") (some (path (codes "b") ∷ []))

abbrev read_file : Text → StateRef json
read_file p = if p =ₜ codes "b" then middle else leaf_at p

unfoldable loader : Loader json Shell
loader = record {
  read = λ p w. ok (read_file p);
  render = λ st args w. (ok st, w);
  url_join = λ a b. none;
  canonicalize = λ p w. ok p;
  path_join = λ a b. b;
}

-- `a` includes `b`, which includes `c` and `d`: they are applied in the order b, c, d, a.
parse-nested_example :
    (parse_state_file_recurr loader 3 top (fields []) empty).0
    ≡ ok (middle ∷ (leaf_at (codes "c") ∷ leaf_at (codes "d") ∷ []) ++ top ∷ [])
unfolding loader load_sub_state full_sub_state_path starts_with ◌=ₜ◌
parse-nested_example =
    parse-nested loader 0 top top middle (fields []) (path (codes "b"))
      (leaf_at (codes "c") ∷ leaf_at (codes "d") ∷ []) empty refl refl
      (record { file = middle; load = λ w. refl; render = λ w. refl })
      (leaf _ _ _ _ (record { file = leaf_at (codes "c"); load = λ w. refl; render = λ w. refl })
        refl
        (leaf _ _ _ _ (record { file = leaf_at (codes "d"); load = λ w. refl; render = λ w. refl })
          refl no_leaf))
