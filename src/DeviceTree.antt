-- ===== src/DeviceTree.antt =====
-- src/plugins/devices/device_tree.cc: the tree of devices and device groups of a workspace, and
-- the tree edits of src/ui/models/workspace_model.cc. A transform is a value of any type `T`.
-- An `int` index that is -1 when nothing is found is an `Option`.
pub mod Chain
pub mod Lookup
pub mod Walks
pub mod Edits
use pointcaster.Prelude.{
  ℕ, zero, suc, String, Bool, true, false, Option, none, some, List, [], ◌∷◌, ◌++◌, str_eq,
  if◌then◌else◌, get_elem?, ◌≡◌, ◌||◌, map,
}
use mathlib.Core.Option
use pointcaster.Prelude.Int.{ℤ}

abbrev pub is_empty : String → Bool
is_empty s = str_eq s ""

pub record Group (T : Type 0) : Type 0 where
  pub id : String
  pub label : String
  pub parent_id : String
  pub order : ℤ
  pub transform : T

-- Which alternative of the configuration variant a device entry holds.
pub data Kind : Type 0 where
  device_kind group_kind : Kind

pub record Device : Type 0 where
  pub kind : Kind
  pub id : String
  pub label : String
  pub parent_id : String
  pub order : ℤ

pub record Config (T : Type 0) : Type 0 where
  pub groups : List (Group T)
  pub devices : List Device
  -- The set of the node ids that each session switches off.
  pub sessions : List (List String)
  pub publish_paths : List String
  pub push_paths : List String
  pub render_paths : List String

-- `contains` of a set of ids.
unfoldable pub contains : List String → String → Bool
contains [] k = false
contains (x ∷ xs) k = str_eq x k || contains xs k

-- The search through the device entries, ended by `if (found) break`.
unfoldable pub find_device : List Device → String → Option Device
find_device [] id = none
find_device (d ∷ ds) id = let rest = find_device ds id in if str_eq d.id id then some d else rest

module _ {T : Type 0} where
  unfoldable pub index_from : ℕ → List (Group T) → String → Option ℕ
  index_from i [] id = none
  index_from i (g ∷ gs) id =
      let rest = index_from (suc i) gs id in if str_eq g.id id then some i else rest

  unfoldable pub group_index_by_id : Config T → String → Option ℕ
  unfolding index_from
  group_index_by_id c id = index_from 0 c.groups id

  -- The group at the index found, as every caller takes it.
  unfoldable pub group_by_id : Config T → String → Option (Group T)
  group_by_id c id = elim (group_index_by_id c id) [ none ↦ none | some i ↦ get_elem? c.groups i ]

  -- The `parent_id` of a node, a group first and then a device.
  unfoldable pub node_parent : Config T → String → Option String
  node_parent c id = elim (group_by_id c id) [
    | some g ↦ some g.parent_id
    | none ↦ Option.map (λ d. d.parent_id) (find_device c.devices id)
  ]

  unfoldable pub group_parent : Config T → String → Option String
  group_parent c id = Option.map (λ g. g.parent_id) (group_by_id c id)
