-- ===== src/DeviceTree/Edits/Delete.antt =====
-- Deleting a device in src/ui/models/workspace_model.cc.
use pointcaster.Prelude.{
  ℕ, suc, ◌≡◌, String, false, Option, none, some, List, [], ◌∷◌, arith, refl, str_eq, if◌then◌else◌,
  map, ◌&&◌, not,
}
use pointcaster.DeviceTree.{Config, Device, contains, find_device}
use pointcaster.DeviceTree.Edits.Paths.{node_path_prefix, erase_node_paths}
use pointcaster.DeviceTree.Edits.Rerooted.{is_under, erase_node_paths-rest}
use pointcaster.DeviceTree.Edits.Parents.{IsAcyclic}
use pointcaster.DeviceTree.Edits.Returns.{prefix_bound}

-- `erase` of a set of ids.
unfoldable pub without : String → List String → List String
without id [] = []
without id (x ∷ xs) = let rest = without id xs in if str_eq x id then rest else x ∷ rest

-- The device found by its index is erased.
unfoldable pub remove_device : String → List Device → List Device
remove_device id [] = []
remove_device id (d ∷ ds) =
    let rest = remove_device id ds in if str_eq d.id id then ds else d ∷ rest

module _ {T : Type 0} where
  unfoldable pub erase_session_node_state : String → Config T → Config T
  erase_session_node_state id c = record c { sessions = map (without id) c.sessions }

  unfoldable pub delete_device : ℕ → Config T → String → Option (Config T)
  delete_device f c id = elim (find_device c.devices id) [
    | none ↦ some c
    | some _ ↦ elim (node_path_prefix f c id) [
      | none ↦ none
      | some prefix ↦ some (
          erase_session_node_state id
            (erase_node_paths (record c { devices = remove_device id c.devices }) prefix))
    ]
  ]

contains-without : (id : String) (xs : List String) → contains (without id xs) id ≡ false
unfolding without contains
contains-without id [] = refl
contains-without id (x ∷ xs) = ground (arith, contains-without id xs)

abbrev pub NoneHolds : String → List (List String) → Type 0
NoneHolds id [] = Unit {0}
NoneHolds id (s ∷ ss) = (contains s id ≡ false) × NoneHolds id ss

pub NoneHolds-without : (id : String) (ss : List (List String)) → NoneHolds id (map (without id) ss)
NoneHolds-without id [] = tt
NoneHolds-without id (s ∷ ss) = (contains-without id s, NoneHolds-without id ss)

module _ {T : Type 0} where
  -- On a tree without cycles, deleting a device ends, and afterwards no path lies below the prefix
  -- that the device had, every other path stays, and no session names the device.
  pub delete_device-forgets :
      (c : Config T) (id : String) (d : Device)
      → IsAcyclic c
      → find_device c.devices id ≡ some d
      → (f : ℕ) × (prefix : String) × (c' : Config T) × (node_path_prefix f c id ≡ some prefix)
        × (delete_device f c id ≡ some c')
        × ((q : String)
            → contains c'.publish_paths q ≡ (contains c.publish_paths q && not (is_under prefix q)))
        × ((q : String)
            → contains c'.push_paths q ≡ (contains c.push_paths q && not (is_under prefix q)))
        × ((q : String)
            → contains c'.render_paths q ≡ (contains c.render_paths q && not (is_under prefix q)))
        × NoneHolds id c'.sessions
  unfolding delete_device erase_session_node_state erase_node_paths
  delete_device-forgets c id d a found =
      let (b, enough) = prefix_bound c id a in
      let (prefix, e) = enough (suc b) (omega arith) in
      let bare : Config T = record c { devices = remove_device id c.devices } in
      let rest = erase_node_paths-rest bare prefix in
      (
        suc b,
        prefix,
        erase_session_node_state id (erase_node_paths bare prefix),
        e,
        ground (arith, found, e),
        λ q. (rest q).0,
        λ q. (rest q).1,
        λ q. (rest q).2,
        NoneHolds-without id c.sessions,
      )
