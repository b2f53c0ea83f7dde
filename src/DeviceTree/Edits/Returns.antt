-- ===== src/DeviceTree/Edits/Returns.antt =====
-- `moveDeviceNode` of src/ui/models/workspace_model.cc ends on a tree without cycles.
use Prim.Native.String.{◌++◌ as append}
use pointcaster.Prelude.{
  ℕ, zero, suc, ◌+◌, ◌<◌, ◌≡◌, String, Bool, true, false, none, some, arith, refl, inl, inr, str_eq,
  Bool-cases, Option-cases, length, ◌||◌,
}
use pointcaster.DeviceTree.{Config, is_empty, contains, group_by_id, group_parent, node_parent}
use pointcaster.DeviceTree.Chain.{Chain, root, orphan, up, visited}
use pointcaster.DeviceTree.Walks.{device_address, label_and_parent}
use pointcaster.DeviceTree.Walks.Ends.{device_address-Chain}
use pointcaster.DeviceTree.Edits.{inside_loop, reparent, move_device_node}
use pointcaster.DeviceTree.Edits.Paths.{node_path_prefix, reroot_node_paths, reroot_paths_between}
use pointcaster.DeviceTree.Edits.Parents.{IsAcyclic, moved-IsAcyclic, move_device_node-IsAcyclic}

module _ {T : Type 0} where
  -- The walk up from the new parent tells whether the node stands on the way.
  inside_loop-Chain_end :
      (c : Config T) (id : String) (f : ℕ) {p : String} (ch : Chain (node_parent c) p)
      → length (visited ch) < f
      → inside_loop f c id p ≡ some (contains (visited ch) id)
  unfolding inside_loop contains
  inside_loop-Chain_end c id zero ch h = absurd (omega arith)
  inside_loop-Chain_end c id (suc f) (root e) h = ground arith
  inside_loop-Chain_end c id (suc f) (orphan {p} e n) h = ground (arith, n)
  inside_loop-Chain_end c id (suc f) (up {p} e n ch) h =
      ground (arith, n, inside_loop-Chain_end c id f ch)

  -- Above a group the walks that follow groups only are no longer than those that follow all nodes.
  group_chain : (c : Config T) {p : String} → Chain (node_parent c) p → Chain (group_parent c) p
  unfolding group_parent node_parent
  group_chain c (root e) = root e
  group_chain c (orphan {p} e n) = orphan e (ground (arith, n))
  group_chain c (up {p} e n ch) = elim (Option-cases (group_by_id c p)) [
    | inl m ↦ orphan e (ground (arith, m))
    | inr (g, m) ↦ up e (ground (arith, m, n)) (group_chain c ch)
  ]

  -- On a tree without cycles the registry prefix of every node is found, with all fuel above a bound.
  pub prefix_bound :
      (c : Config T) (id : String)
      → IsAcyclic c
      → (b : ℕ) × ((f : ℕ) → b < f → (a : String) × (node_path_prefix f c id ≡ some a))
  unfolding node_path_prefix device_address
  prefix_bound c id a = elim (Option-cases (label_and_parent c id)) [
    | inl n ↦ (0, λ f h. unknown f n)
    | inr ((own, p), e) ↦
        let ch = group_chain c (a p) in
        (length (visited ch), λ f h. known f (device_address-Chain c f id own p ch e h))
  ]
    where
      unknown :
          (f : ℕ) → label_and_parent c id ≡ none → (a : String) × (node_path_prefix f c id ≡ some a)
      unknown f n = (append "device/" id, ground (arith, n))

      known :
          (f : ℕ)
          → (a : String) × (device_address f c id ≡ some a)
          → (a : String) × (node_path_prefix f c id ≡ some a)
      known f (a, e) = (append "device/" a, ground (arith, e))

  -- Any fuel above some bound is enough for a move on a tree without cycles.
  move_bound :
      (c : Config T) (id parent before : String)
      → IsAcyclic c
      → (b : ℕ) × ((f : ℕ)
          → b < f
          → (c' : Config T) × (move_device_node f c id parent before ≡ some c'))
  unfolding move_device_node reroot_node_paths
  move_bound c id parent before a = elim (Option-cases (node_parent c id)) [
    | inl n ↦ (0, λ f h. (c, ground (arith, n)))
    | inr (old, n) ↦ elim (Bool-cases (contains (visited (a parent)) id)) [
      | inl x ↦ (b1 + b2, λ f h. stays f old n (first.1 f (omega arith)) (inside f x (omega arith)))
      | inr x ↦
          let (b3, second) = prefix_bound (reparent c id parent before) id (acyclic old n x) in
          (
            b1 + b2 + b3,
            λ f h.
                moves f old n (first.1 f (omega arith)) (inside f x (omega arith))
                  (second f (omega arith)),
          )
    ]
  ]
    where
      first : (b : ℕ) × ((f : ℕ) → b < f → (p : String) × (node_path_prefix f c id ≡ some p))
      first = prefix_bound c id a

      b1 : ℕ
      b1 = first.0

      b2 : ℕ
      b2 = length (visited (a parent))

      inside :
          {b : Bool} (f : ℕ)
          → contains (visited (a parent)) id ≡ b
          → b2 < f
          → inside_loop f c id parent ≡ some b
      inside f x h = ground (arith, x, inside_loop-Chain_end c id f (a parent) h)

      acyclic :
          (old : String)
          → node_parent c id ≡ some old
          → contains (visited (a parent)) id ≡ false
          → IsAcyclic (reparent c id parent before)
      acyclic old n x =
          moved-IsAcyclic (suc b2) c (reparent c id parent before) id parent before old n
            (inside (suc b2) x (omega arith)) (λ q. refl) a

      stays :
          (f : ℕ) (old : String)
          → node_parent c id ≡ some old
          → (p : String) × (node_path_prefix f c id ≡ some p)
          → inside_loop f c id parent ≡ some true
          → (c' : Config T) × (move_device_node f c id parent before ≡ some c')
      stays f old n (p, e) l = (c, ground (arith, n, e, l))

      moves :
          (f : ℕ) (old : String)
          → node_parent c id ≡ some old
          → (p : String) × (node_path_prefix f c id ≡ some p)
          → inside_loop f c id parent ≡ some false
          → (p : String) × (node_path_prefix f (reparent c id parent before) id ≡ some p)
          → (c' : Config T) × (move_device_node f c id parent before ≡ some c')
      moves f old n (p, e) l (p', e') = elim (Bool-cases (is_empty id || str_eq id parent)) [
        | inl b ↦ (c, ground (arith, b))
        | inr b ↦ (
          reroot_paths_between (reparent c id parent before) p p',
          ground (arith, n, e, l, e', b),
        )
      ]

  -- On a tree without cycles, moving a node ends, whatever node, parent and position are asked for,
  -- and the tree has no cycles afterwards.
  pub move_device_node-returns :
      (c : Config T) (id parent before : String)
      → IsAcyclic c
      → (f : ℕ) × (c' : Config T) × (move_device_node f c id parent before ≡ some c') × IsAcyclic c'
  move_device_node-returns c id parent before a =
      let (b, enough) = move_bound c id parent before a in
      let (c', e) = enough (suc b) (omega arith) in
      (suc b, c', e, move_device_node-IsAcyclic (suc b) c id parent before e a)
