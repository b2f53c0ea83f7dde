-- ===== src/Tests/Create.antt =====
-- Creation of groups in the workspace of one group.
use pointcaster.Prelude.{
  ℕ, ◌≡◌, String, refl, none, some, [], ◌∷◌, arith, if◌then◌else◌, str_eq, eq_iff, Bool-cases, inl,
  inr,
}
use pointcaster.Prelude.Int.{pos}
use pointcaster.DeviceTree.{Config, contains, node_parent, group_index_by_id, find_device, is_empty}
use pointcaster.DeviceTree.Chain.{root, orphan, up}
use pointcaster.DeviceTree.Lookup.{node_parent-lists, parent_in, find_group}
use pointcaster.DeviceTree.Edits.Parents.{IsAcyclic}
use pointcaster.DeviceTree.Edits.Create.{
  create_device_group, create_device_group-returns, Created, group_labels, push_group,
}
use pointcaster.Labels.{next_available_label, label_from}
use pointcaster.Tests.Labels.{marked, marked_injective}

abbrev single : Config ℕ
single = record {
  groups =
      record { id = "stage"; label = "|group"; parent_id = ""; order = pos 0; transform = 2 } ∷ [];
  devices = [];
  sessions = [];
  publish_paths = [];
  push_paths = [];
  render_paths = [];
}

-- The parents are those of the one group.
single_parent : (q : String) → node_parent single q ≡ (if str_eq "stage" q then some "" else none)
unfolding parent_in find_group find_device
single_parent q = ground (arith, node_parent-lists single q)

single_unnamed : (q : String) → ¬ (node_parent single q ≡ some "new")
single_unnamed q h = elim (Bool-cases (str_eq "stage" q)) [
  | inl e ↦ ground (arith, e, single_parent q, h, eq_iff "" "new")
  | inr e ↦ ground (arith, e, single_parent q, h)
]

single-IsAcyclic : IsAcyclic single
single-IsAcyclic p = elim (Bool-cases (is_empty p)) [
  | inl x ↦ root x
  | inr x ↦ elim (Bool-cases (str_eq "stage" p)) [
    | inl e ↦ up {q = ""} x (ground (arith, e, single_parent p)) (root refl)
    | inr e ↦ orphan x (ground (arith, e, single_parent p))
  ]
]

second_group :
    create_device_group marked 7 2 single "stage" "new"
    ≡ some (push_group marked 7 single "stage" "new" "||group")
unfolding create_device_group group_index_by_id group_labels next_available_label label_from
    contains push_group
second_group = refl

create_device_group-returns_example :
    (c' : Config ℕ) × (create_device_group marked 7 2 single "stage" "new" ≡ some c')
    × IsAcyclic c'
    × Created marked 7 single "stage" "new" c'
unfolding group_labels
create_device_group-returns_example =
    create_device_group-returns marked 7 marked_injective single "stage" "new" (single_parent "new")
      single_unnamed refl single-IsAcyclic
