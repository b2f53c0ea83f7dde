-- ===== src/DeviceTree/Edits/Rename.antt =====
-- Renaming a device in src/ui/models/workspace_model.cc: `setDeviceLabel` and its undo command.
use pointcaster.Prelude.{
  ℕ, ◌≡◌, String, false, Option, none, some, List, [], ◌∷◌, arith, refl, inl, inr, str_eq,
  if◌then◌else◌, Bool-cases, map, ap,
}
use pointcaster.DeviceTree.{Config, Device, contains, find_device}
use pointcaster.DeviceTree.Edits.Paths.{node_path_prefix, reroot_node_paths, reroot_paths_between}
use pointcaster.DeviceTree.Edits.Rerooted.{rerooted, reroot_paths_between-image}

-- `SetDeviceLabelCommand::State`
pub record LabelState : Type 0 where
  pub label : String
  pub publish_paths : List String
  pub push_paths : List String

-- The device found by its index, with another label.
unfoldable pub relabel : String → String → List Device → List Device
relabel id label [] = []
relabel id label (d ∷ ds) =
    let rest = relabel id label ds in
    if str_eq d.id id then record d { label = label } ∷ ds else d ∷ rest

relabel-same :
    (id : String) (ds : List Device) (d : Device)
    → find_device ds id ≡ some d
    → relabel id d.label ds ≡ ds
unfolding relabel find_device
relabel-same id [] d e = refl
relabel-same id (x ∷ xs) d e = elim (Bool-cases (str_eq x.id id)) [
  | inl h ↦ ground (arith, h, e)
  | inr h ↦ rw h (ap (λ r. x ∷ r) (relabel-same id xs d (ground (arith, h, e))))
]

module _ {T : Type 0} where
  -- `SetDeviceLabelCommand::apply`, on the snapshot that it keeps.
  unfoldable pub apply_label : Config T → String → LabelState → Config T
  apply_label c id state = elim (find_device c.devices id) [
    | none ↦ c
    | some _ ↦ record c {
      devices = relabel id state.label c.devices;
      publish_paths = state.publish_paths;
      push_paths = state.push_paths;
    }
  ]

  abbrev pub renamed : Config T → String → String → Config T
  renamed c id label = record c { devices = relabel id label c.devices }

  -- The states before and after that `setDeviceLabel` hands to its command, if it makes one.
  unfoldable pub label_states :
      ℕ → Config T → String → String → Option (Option (LabelState × LabelState))
  label_states f c id label = elim (find_device c.devices id) [
    | none ↦ some none
    | some d ↦ if str_eq d.label label then some none else elim (node_path_prefix f c id) [
      | none ↦ none
      | some previous ↦ elim (reroot_node_paths f (renamed c id label) previous id) [
        | none ↦ none
        | some moved ↦ some (
            some (
              record {
                label = d.label;
                publish_paths = c.publish_paths;
                push_paths = c.push_paths;
              },
              record {
                label = label;
                publish_paths = moved.publish_paths;
                push_paths = moved.push_paths;
              },
            ))
      ]
    ]
  ]

  -- Renaming a device to another label, when its prefixes before and after are found, makes a command
  -- whose undo restores the configuration and whose redo takes the paths to publish and to push along
  -- to the new prefix, but leaves the paths to render at the old one.
  pub label_states-redo_undo :
      (f : ℕ) (c : Config T) (id label previous new : String) (d : Device)
      → find_device c.devices id ≡ some d
      → str_eq d.label label ≡ false
      → node_path_prefix f c id ≡ some previous
      → node_path_prefix f (renamed c id label) id ≡ some new
      → (before : LabelState) × (after : LabelState) × (label_states f c id label
          ≡ some (some (before, after)))
        × (apply_label c id before ≡ c)
        × ((q : String)
            → contains (apply_label c id after).publish_paths q
              ≡ contains (map (rerooted previous new) c.publish_paths) q)
        × ((q : String)
            → contains (apply_label c id after).push_paths q
              ≡ contains (map (rerooted previous new) c.push_paths) q)
        × ((apply_label c id after).render_paths ≡ c.render_paths)
  unfolding label_states apply_label reroot_node_paths
  label_states-redo_undo f c id label previous new d found other before_prefix after_prefix =
      let moved = reroot_paths_between (renamed c id label) previous new in
      let image = reroot_paths_between-image (renamed c id label) previous new in
      (
        record { label = d.label; publish_paths = c.publish_paths; push_paths = c.push_paths },
        record {
          label = label;
          publish_paths = moved.publish_paths;
          push_paths = moved.push_paths;
        },
        ground (arith, found, other, before_prefix, after_prefix),
        ground (arith, found, relabel-same id c.devices d found),
        λ q. ground (arith, found, image q),
        λ q. ground (arith, found, image q),
        ground (arith, found),
      )
