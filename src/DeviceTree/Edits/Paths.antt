-- ===== src/DeviceTree/Edits/Paths.antt =====
-- The registry paths of a workspace that lie under a node, in src/ui/models/workspace_model.cc.
-- A `std::set` of paths is a list, and `insert` leaves a path that is there.
use mathlib.Core.Option
use Prim.Native.String
use Prim.Native.Char.{code}
use pointcaster.Prelude.{
  ℕ, String, Bool, false, Option, none, some, List, [], ◌∷◌, str_eq, if◌then◌else◌, ◌==◌,
}
use pointcaster.DeviceTree.{Config, contains}
use pointcaster.DeviceTree.Walks.{device_address}

abbrev append : String → String → String
append = String.◌++◌

-- What follows a prefix in a path that starts with it.
unfoldable pub strip_prefix : String → String → Option String
strip_prefix String.[] path = some path
strip_prefix (String.◌∷◌ a prefix) String.[] = none
strip_prefix (String.◌∷◌ a prefix) (String.◌∷◌ b path) =
    let rest = strip_prefix prefix path in if code a == code b then rest else none

unfoldable pub starts_with_slash : String → Bool
starts_with_slash String.[] = false
starts_with_slash (String.◌∷◌ a rest) = code a == b'/'

-- `path_under_prefix`, with `path.substr(prefix.size())` as its value.
unfoldable pub under_prefix : String → String → Option String
unfolding starts_with_slash
under_prefix path prefix = elim (strip_prefix prefix path) [
  | none ↦ none
  | some rest ↦ if starts_with_slash rest then some rest else none
]

unfoldable pub insert : String → List String → List String
insert p ps = if contains ps p then ps else p ∷ ps

unfoldable pub reroot_paths : List String → String → String → List String
reroot_paths [] previous new = []
reroot_paths (p ∷ ps) previous new =
    let rest = reroot_paths ps previous new in
    elim (under_prefix p previous) [
      | some tail ↦ insert (append new tail) rest
      | none ↦ insert p rest
    ]

unfoldable pub erase_paths : List String → String → List String
erase_paths [] prefix = []
erase_paths (p ∷ ps) prefix =
    let rest = erase_paths ps prefix in
    elim (under_prefix p prefix) [ some _ ↦ rest | none ↦ p ∷ rest ]

module _ {T : Type 0} where
  unfoldable pub node_path_prefix : ℕ → Config T → String → Option String
  node_path_prefix f c id = Option.map (append "device/") (device_address f c id)

  unfoldable pub reroot_paths_between : Config T → String → String → Config T
  reroot_paths_between c previous new = if str_eq new previous then c else record c {
    publish_paths = reroot_paths c.publish_paths previous new;
    push_paths = reroot_paths c.push_paths previous new;
    render_paths = reroot_paths c.render_paths previous new;
  }

  unfoldable pub reroot_node_paths : ℕ → Config T → String → String → Option (Config T)
  reroot_node_paths f c previous id =
      Option.map (reroot_paths_between c previous) (node_path_prefix f c id)

  unfoldable pub erase_node_paths : Config T → String → Config T
  erase_node_paths c prefix = record c {
    publish_paths = erase_paths c.publish_paths prefix;
    push_paths = erase_paths c.push_paths prefix;
    render_paths = erase_paths c.render_paths prefix;
  }
