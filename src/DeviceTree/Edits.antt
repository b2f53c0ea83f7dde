-- ===== src/DeviceTree/Edits.antt =====
-- Edits of the device tree in src/ui/models/workspace_model.cc, on the configuration that they
-- replace; the redraw of the window after them is left out. Loops up the parents run on fuel.
pub mod Paths
pub mod Parents
pub mod Order
pub mod Rerooted
pub mod Rename
pub mod Delete
pub mod Returns
pub mod Groups
pub mod Create
use mathlib.Core.Option
use pointcaster.Prelude.{
  ℕ, zero, suc, ◌+◌, String, Bool, true, false, Option, none, some, List, [], ◌∷◌, ◌++◌, str_eq,
  if◌then◌else◌, ◌||◌, ◌==◌, leb, length, ◌≡◌,
}
use pointcaster.Prelude.Int.{ℤ, pos, ltb_ℤ}
use pointcaster.DeviceTree.{
  Config, Group, Device, is_empty, contains, group_by_id, group_index_by_id, node_parent,
}
use Paths.{node_path_prefix, reroot_node_paths, erase_node_paths}

module _ {T : Type 0} where
  -- The group found by its index, with a new value in its place.
  unfoldable pub update_group : (Group T → Group T) → String → List (Group T) → List (Group T)
  update_group new id [] = []
  update_group new id (g ∷ gs) =
      let rest = update_group new id gs in if str_eq g.id id then new g ∷ gs else g ∷ rest

unfoldable pub update_devices : (Device → Device) → String → List Device → List Device
update_devices new id [] = []
update_devices new id (d ∷ ds) = (if str_eq d.id id then new d else d) ∷ update_devices new id ds

pub record Sibling : Type 0 where
  pub id : String
  pub order : ℤ

-- `std::stable_sort` by `order`.
unfoldable pub insert_sibling : Sibling → List Sibling → List Sibling
insert_sibling s [] = s ∷ []
insert_sibling s (x ∷ xs) =
    let rest = insert_sibling s xs in if ltb_ℤ x.order s.order then x ∷ rest else s ∷ x ∷ xs

unfoldable pub stable_sort : List Sibling → List Sibling
stable_sort [] = []
stable_sort (s ∷ ss) = insert_sibling s (stable_sort ss)

-- The index of the sibling to stand before, or the number of siblings.
unfoldable pub insertion_index : String → List Sibling → ℕ
insertion_index before [] = 0
insertion_index before (s ∷ ss) =
    let rest = insertion_index before ss in
    if is_empty before then suc (length ss) else if str_eq s.id before then 0 else suc rest

-- The loop that fills `ordered`, from index `i`.
unfoldable pub ordered_from : ℕ → ℕ → String → List Sibling → List String
ordered_from i insert_at id [] = if leb i insert_at then id ∷ [] else []
ordered_from i insert_at id (s ∷ ss) =
    let rest = ordered_from (suc i) insert_at id ss in
    if i == insert_at then id ∷ s.id ∷ rest else s.id ∷ rest

module _ {T : Type 0} where
  unfoldable pub set_parent : Config T → String → String → Config T
  set_parent c nid parent = elim (group_index_by_id c nid) [
    | some _ ↦ record c {
      groups = update_group (λ g. record g { parent_id = parent }) nid c.groups;
    }
    | none ↦ record c {
      devices = update_devices (λ d. record d { parent_id = parent }) nid c.devices;
    }
  ]

  unfoldable pub set_order : Config T → String → ℤ → Config T
  set_order c nid order = elim (group_index_by_id c nid) [
    | some _ ↦ record c { groups = update_group (λ g. record g { order = order }) nid c.groups }
    | none ↦ record c { devices = update_devices (λ d. record d { order = order }) nid c.devices }
  ]

  -- Walk up from the new parent: `true` when the node itself stands on the way.
  unfoldable pub inside_loop : ℕ → Config T → String → String → Option Bool
  inside_loop zero c id p = none
  inside_loop (suc f) c id p =
      let above : Option Bool = elim (node_parent c p) [
        | none ↦ some false
        | some q ↦ inside_loop f c id q
      ] in
      if is_empty p then some false else if str_eq p id then some true else above

  unfoldable pub sibling_groups : String → String → List (Group T) → List Sibling
  sibling_groups id parent [] = []
  sibling_groups id parent (g ∷ gs) =
      let rest = sibling_groups id parent gs in
      if str_eq g.id id
      then rest
      else if str_eq g.parent_id parent
      then record { id = g.id; order = g.order } ∷ rest
      else rest

unfoldable pub sibling_devices : String → String → List Device → List Sibling
sibling_devices id parent [] = []
sibling_devices id parent (d ∷ ds) =
    let rest = sibling_devices id parent ds in
    if str_eq d.id id
    then rest
    else if str_eq d.parent_id parent
    then record { id = d.id; order = d.order } ∷ rest
    else rest

module _ {T : Type 0} where
  unfoldable pub siblings : Config T → String → String → List Sibling
  siblings c id parent =
      stable_sort (sibling_groups id parent c.groups ++ sibling_devices id parent c.devices)

  unfoldable pub new_order : Config T → String → String → String → List String
  new_order c id parent before =
      let ss = siblings c id parent in ordered_from 0 (insertion_index before ss) id ss

  unfoldable pub assign_orders : ℕ → List String → Config T → Config T
  assign_orders i [] c = c
  assign_orders i (id ∷ ids) c = assign_orders (suc i) ids (set_order c id (pos i))

  -- The node under its new parent, its siblings numbered anew.
  unfoldable pub reparent : Config T → String → String → String → Config T
  reparent c id parent before =
      let c' = set_parent c id parent in assign_orders 0 (new_order c' id parent before) c'

  unfoldable pub move_device_node : ℕ → Config T → String → String → String → Option (Config T)
  move_device_node f c id parent before =
      if is_empty id || str_eq id parent then some c else elim (node_parent c id) [
        | none ↦ some c
        | some _ ↦ elim (node_path_prefix f c id) [
          | none ↦ none
          | some previous ↦ elim (inside_loop f c id parent) [
            | none ↦ none
            | some true ↦ some c
            | some false ↦ reroot_node_paths f (reparent c id parent before) previous id
          ]
        ]
      ]
