-- ===== src/Statefile/Parse.antt =====
-- Reading a Statefile with the sub states that it includes: parse_state_file_recurr of
-- bin/nanocl/src/commands/state.rs. Reading a file or a URL, filling in a template and joining
-- paths are a parameter. The recursion is on fuel, since files may include each other.
use nanocl.Prelude.{
  ℕ, zero, suc, Text, codes, ◌=ₜ◌, starts_with, Option, none, some, List, [], ◌∷◌, ◌++◌, map,
  unwrap_or, if◌then◌else◌,
}
use nanocl.Io.{IoError, ErrorKind, Result, ok, err, with_context, ◌>>=◌ as bind}
use nanocl.Effect.{run_ordered, Effect, pure, raise, continue, ◌>>=◌}
use nanocl.Statefile.Objects.{Foreign}
use nanocl.Statefile.{
  StateRef, StateRoot, root_none, root_url, root_file, SubState, path, definition, SubStateValue,
  number, string, boolean,
}

pub record Loader (F : Foreign) (World : Type 0) : Type 0 where
  -- `read_state_file` of a path or URL
  pub read : Text → World → Result (StateRef F)
  -- `gen_client` and `render_template`, which creates the namespace
  pub render : StateRef F → F.Value → World → Result (StateRef F) × World
  -- `Url::parse` and `join`; nothing where these fail
  pub url_join : Text → Text → Option Text
  pub canonicalize : Text → World → Result Text
  -- `PathBuf::join`
  pub path_join : Text → Text → Text

abbrev pub concat : {A : Type 0} → List (List A) → List A
concat [] = []
concat (xs ∷ xss) = xs ++ concat xss

abbrev pub reverse : {A : Type 0} → List A → List A
reverse [] = []
reverse (x ∷ xs) = reverse xs ++ x ∷ []

abbrev cannot_join : IoError
cannot_join = with_context ErrorKind.other (codes "panic") (codes "Can't join url")

abbrev includes_itself : IoError
includes_itself =
    with_context ErrorKind.invalid_data (codes "Statefile") (codes "Cannot include itself")

abbrev pub out_of_fuel : IoError
out_of_fuel = with_context ErrorKind.other (codes "model") (codes "out of fuel")

module _ {F : Foreign} where
  abbrev pub sub_state_path : SubState F → Text
  sub_state_path (path p) = p
  sub_state_path (definition p _) = p

  abbrev pub arg_value : SubStateValue F → F.Value
  arg_value (string value) = F.string value
  arg_value (number value) = F.number value
  arg_value (boolean value) = F.boolean value

  abbrev pub compiled_values : SubState F → List (Text × F.Value)
  compiled_values (definition _ (some args)) = map (λ a. (a.name, arg_value a.value)) args
  compiled_values _ = []

module _ {F : Foreign} {World : Type 0} (loader : Loader F World) where
  abbrev or_cannot_join : Option Text → Result Text
  or_cannot_join none = err cannot_join
  or_cannot_join (some url) = ok url

  abbrev unless_itself : Text → Text → Result Text
  unless_itself current full_path =
      if current =ₜ full_path then err includes_itself else ok full_path

  -- where a sub state is read from
  unfoldable pub full_sub_state_path : StateRoot → Text → Text → World → Result Text
  full_sub_state_path (root_url url) parent_location sub w =
      or_cannot_join (loader.url_join url sub)
  full_sub_state_path (root_file dir) parent_location sub w =
      bind (loader.canonicalize parent_location w)
        λ current. unless_itself current (loader.path_join dir sub)
  full_sub_state_path root_none parent_location sub w = ok sub

  -- the body of the closure, up to the recursive call
  unfoldable pub load_sub_state : StateRef F → SubState F → World → Result (StateRef F)
  load_sub_state state_file sub w =
      let p = sub_state_path sub in
      if starts_with (codes "http") p
      then loader.read p w
      else bind (full_sub_state_path state_file.root state_file.location p w)
          λ full. loader.read full w

  abbrev pub sub_states_of : StateRef F → List (SubState F)
  sub_states_of state_file = unwrap_or state_file.content.sub_states []

  -- with what parses the sub states
  unfoldable pub parse_with :
      (StateRef F → F.Value → Effect World (List (StateRef F)))
      → StateRef F
      → F.Value
      → Effect World (List (StateRef F))
  parse_with recurse state_file args = do
    state_file ← loader.render state_file args
    parsed_sub_states ←
        run_ordered
          (λ sub w.
            continue (load_sub_state state_file sub w)
              (λ sub_file. recurse sub_file (F.object (compiled_values sub))) w)
          (sub_states_of state_file)
    pure (reverse (state_file ∷ concat parsed_sub_states))

  unfoldable pub parse_state_file_recurr :
      ℕ → StateRef F → F.Value → Effect World (List (StateRef F))
  parse_state_file_recurr zero state_file args = raise out_of_fuel
  parse_state_file_recurr (suc fuel) state_file args =
      parse_with (parse_state_file_recurr fuel) state_file args
