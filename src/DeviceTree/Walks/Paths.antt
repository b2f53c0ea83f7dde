-- ===== src/DeviceTree/Walks/Paths.antt =====
-- How the answers for a node and for its parent group relate (src/plugins/devices/device_tree.cc).
use mathlib.Core.Option
use mathlib.Core.List.{reverse, reverse-cons}
use Prim.Native.String.{◌++◌ as append}
use pointcaster.Prelude.{
  ℕ, suc, ◌≡◌, String, false, some, List, [], ◌∷◌, ◌++◌, arith, refl, Option-cases, inl, inr,
  if◌then◌else◌,
}
use pointcaster.DeviceTree.{Config, Group, is_empty, contains, group_by_id, node_parent}
use pointcaster.DeviceTree.Walks.{
  enabled_loop, effective_session_enabled, label_loop, label_or_id, join_address, label_and_parent,
  device_address,
}

join_address-append :
    (ls : List String) (l a : String)
    → join_address (ls ++ l ∷ []) a ≡ append (append (join_address ls a) l) "/"
unfolding join_address
join_address-append [] l a = refl
join_address-append (x ∷ ls) l a = join_address-append ls l (append (append a x) "/")

join_address-reverse :
    (ls : List String) (l : String)
    → join_address (reverse (l ∷ ls)) "" ≡ append (append (join_address (reverse ls) "") l) "/"
join_address-reverse ls l = rw (reverse-cons l ls) (join_address-append (reverse ls) l "")

module _ {T : Type 0} (c : Config T) (id parent own : String) (g : Group T)
    (node : label_and_parent c id ≡ some (own, parent)) (named : is_empty parent ≡ false)
    (found : group_by_id c parent ≡ some g) where
  -- The address of a node in a group is the group's address, a slash, and the node's own label.
  pub device_address-child :
      (f : ℕ)
      → device_address (suc f) c id
        ≡ Option.map (λ a. append (append a "/") own) (device_address f c parent)
  unfolding device_address label_loop label_and_parent
  device_address-child f = elim (Option-cases (label_loop f c g.parent_id)) [
    | inl n ↦ ground (arith, n)
    | inr (ls, r) ↦ ground (arith, r, join_address-reverse ls (label_or_id g.label g.id))
  ]

  -- A node in a group is switched on exactly when the session does not switch it off itself and
  -- the group is switched on.
  pub effective_session_enabled-child :
      (f : ℕ) (disabled : List String)
      → effective_session_enabled (suc f) c disabled id ≡ (
          if contains disabled id
          then some false
          else effective_session_enabled f c disabled parent)
  unfolding effective_session_enabled enabled_loop contains node_parent label_and_parent
  effective_session_enabled-child f [] = refl
  effective_session_enabled-child f (x ∷ xs) = ground arith
