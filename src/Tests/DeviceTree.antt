-- ===== src/Tests/DeviceTree.antt =====
-- A workspace with the groups `stage` and, inside it, `left`, and two cameras.
use pointcaster.Prelude.{
  ℕ, ◌≡◌, ◌<◌, ◌⊎◌, ◌↔◌, String, refl, Bool, true, false, Option, none, some, [], ◌∷◌, arith, inl,
  inr, Bool-cases, Option-cases, length, sym, subst, if◌then◌else◌,
}
use pointcaster.Prelude.Int.{pos}
use pointcaster.DeviceTree.{
  Config, Group, Device, device_kind, is_empty, node_parent, contains, group_by_id, find_device,
  group_parent, group_index_by_id,
}
use pointcaster.DeviceTree.Chain.{Chain, root, orphan, up, visited}
use pointcaster.DeviceTree.Lookup.{parent_in, node_parent-lists, find_group, group_by_id-find}
use pointcaster.DeviceTree.Walks.{
  effective_session_enabled, device_address, device_ids_in_group, label_and_parent, enabled_loop,
  label_loop, join_address, label_or_id,
}
use pointcaster.DeviceTree.Walks.Ends.{
  device_address-returns_iff, device_ids_in_group-members, members,
}
use pointcaster.DeviceTree.Walks.Paths.{effective_session_enabled-child}
use pointcaster.DeviceTree.Edits.Parents.{IsAcyclic}

abbrev pub stage : Group ℕ
stage = record { id = "stage"; label = "Stage"; parent_id = ""; order = pos 0; transform = 2 }

abbrev pub left : Group ℕ
left = record { id = "left"; label = ""; parent_id = "stage"; order = pos 0; transform = 3 }

abbrev pub camera : String → String → Device
camera id parent = record {
  kind = device_kind;
  id = id;
  label = "";
  parent_id = parent;
  order = pos 0;
}

abbrev pub workspace : Config ℕ
workspace = record {
  groups = stage ∷ left ∷ [];
  devices = camera "cam" "left" ∷ camera "top" "stage" ∷ [];
  sessions = [];
  publish_paths = "device/Stage/left/cam/transform" ∷ [];
  push_paths = [];
  render_paths = [];
}

pub stage_parent : group_parent workspace "stage" ≡ some ""
unfolding group_parent group_by_id group_index_by_id
stage_parent = refl

pub left_parent : group_parent workspace "left" ≡ some "stage"
unfolding group_parent group_by_id group_index_by_id
left_parent = refl

unfoldable pub stage_chain : Chain (group_parent workspace) "stage"
stage_chain = up refl stage_parent (root refl)

unfoldable pub left_chain : Chain (group_parent workspace) "left"
left_chain = up refl left_parent stage_chain

pub cam_parent : node_parent workspace "cam" ≡ some "left"
unfolding node_parent group_by_id group_index_by_id find_device
cam_parent = refl

stage_node : node_parent workspace "stage" ≡ some ""
unfolding node_parent group_by_id group_index_by_id
stage_node = refl

left_node : node_parent workspace "left" ≡ some "stage"
unfolding node_parent group_by_id group_index_by_id
left_node = refl

-- The nodes of the workspace hang under the root or under one another, and any other id is an orphan.
pub workspace-IsAcyclic : IsAcyclic workspace
unfolding parent_in find_group find_device
workspace-IsAcyclic p = elim (Bool-cases (is_empty p)) [
  | inl e ↦ root e
  | inr e ↦ elim (Option-cases (node_parent workspace p)) [
    | inl n ↦ orphan e n
    | inr (q, n) ↦ up e n (parent_chain q (ground (arith, n, node_parent-lists workspace p)))
  ]
]
  where
    of_root : (q : String) → q ≡ "" → Chain (node_parent workspace) q
    of_root q e = root (subst (λ z. is_empty z ≡ true) (sym e) refl)

    of_stage : (q : String) → q ≡ "stage" → Chain (node_parent workspace) q
    of_stage q e = subst (Chain (node_parent workspace)) (sym e) (up refl stage_node (root refl))

    of_left : (q : String) → q ≡ "left" → Chain (node_parent workspace) q
    of_left q e =
        subst (Chain (node_parent workspace)) (sym e) (up refl left_node (of_stage "stage" refl))

    parent_chain :
        (q : String) → (q ≡ "") ⊎ (q ≡ "stage") ⊎ (q ≡ "left") → Chain (node_parent workspace) q
    parent_chain q (inl e) = of_root q e
    parent_chain q (inr (inl e)) = of_stage q e
    parent_chain q (inr (inr e)) = of_left q e

switched_off : effective_session_enabled 3 workspace ("stage" ∷ []) "cam" ≡ some false
unfolding effective_session_enabled node_parent group_by_id group_index_by_id find_device
    enabled_loop contains
switched_off = refl

address : device_address 3 workspace "cam" ≡ some "Stage/left/cam"
unfolding device_address label_and_parent label_loop join_address group_by_id group_index_by_id
    find_device
address = refl

device_address-returns_iff_example :
    ((f : ℕ) × (a : String) × (device_address f workspace "cam" ≡ some a))
    ↔ Chain (group_parent workspace) "left"
unfolding label_and_parent label_or_id group_by_id group_index_by_id find_device
device_address-returns_iff_example = device_address-returns_iff workspace "cam" "cam" "left" refl

effective_session_enabled-child_example :
    effective_session_enabled 3 workspace ("top" ∷ []) "cam" ≡ (
      if contains ("top" ∷ []) "cam"
      then some false
      else effective_session_enabled 2 workspace ("top" ∷ []) "left")
unfolding label_and_parent label_or_id group_by_id group_index_by_id find_device
effective_session_enabled-child_example =
    effective_session_enabled-child workspace "cam" "left" "cam" left refl refl refl 2 ("top" ∷ [])

-- A workspace whose devices all stand at the root: every chain is short.
abbrev flat : Config ℕ
flat = record {
  groups = stage ∷ [];
  devices = camera "cam" "stage" ∷ camera "top" "" ∷ [];
  sessions = [];
  publish_paths = [];
  push_paths = [];
  render_paths = [];
}

flat_root : (p q : String) → group_parent flat p ≡ some q → q ≡ ""
unfolding group_parent find_group
flat_root p q n = ground (arith, n, group_by_id-find flat p)

flat_parent : (p q : String) → group_parent flat p ≡ some q → is_empty q ≡ true
flat_parent p q n = subst (λ z. is_empty z ≡ true) (sym (flat_root p q n)) refl

flat_chain :
    (p : String) (e : Bool)
    → is_empty p ≡ e
    → (o : Option String) → group_parent flat p ≡ o
    → Chain (group_parent flat) p
flat_chain p true e o n = root e
flat_chain p false e none n = orphan e n
flat_chain p false e (some q) n = up e n (root (flat_parent p q n))

flat_chain_short :
    (p : String) (e : Bool) (x : is_empty p ≡ e) (o : Option String) (n : group_parent flat p ≡ o)
    → length (visited (flat_chain p e x o n)) < 2
unfolding flat_chain
flat_chain_short p true x o n = omega arith
flat_chain_short p false x none n = omega arith
flat_chain_short p false x (some q) n = omega arith

device_ids_in_group-members_example :
    device_ids_in_group 2 flat "stage"
    ≡ some (
        members flat
          (λ p. flat_chain p (is_empty p) refl (group_parent flat p) refl)
          "stage"
          flat.devices)
device_ids_in_group-members_example =
    device_ids_in_group-members flat
      (λ p. flat_chain p (is_empty p) refl (group_parent flat p) refl) 2 "stage"
      (λ p. flat_chain_short p (is_empty p) refl (group_parent flat p) refl)
