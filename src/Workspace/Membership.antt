-- ===== src/Workspace/Membership.antt =====
-- `Workspace::refresh_device_session_membership` of src/workspace/workspace.cc.
use pointcaster.Prelude.{
  ℕ, ◌<◌, ◌≡◌, String, Bool, true, false, Option, none, some, List, [], ◌∷◌, ◌&&◌, length, not,
  if◌then◌else◌, arith, refl, Bool-cases, inl, inr, ◌∙◌, ap,
}
use pointcaster.DeviceTree.{Config, contains, node_parent, group_parent}
use pointcaster.Session.Update.{same_bool}
use pointcaster.DeviceTree.Chain.{Chain, visited}
use pointcaster.DeviceTree.Walks.{in_any_session}
use pointcaster.DeviceTree.Walks.Ends.{none_in, effective_session_enabled-Chain}

pub record Member : Type 0 where
  pub id : String
  pub in_any_session : Bool

same_bool_eq : (b x : Bool) → same_bool b x ≡ true → b ≡ x
same_bool_eq true true h = refl
same_bool_eq true false h = cc
same_bool_eq false true h = cc
same_bool_eq false false h = refl

same_bool_refl : (b : Bool) → same_bool b b ≡ true
same_bool_refl true = refl
same_bool_refl false = refl

module _ {T : Type 0} where
  -- The devices after, and those notified, in order, with the value they are told. A null device is
  -- skipped. A walk up the tree that does not end is `none`.
  unfoldable pub refresh_device_session_membership :
      ℕ → Config T → List (Option Member) → Option (List (Option Member) × List (String × Bool))
  refresh_device_session_membership f c [] = some ([], [])
  refresh_device_session_membership f c (none ∷ ds) =
      elim (refresh_device_session_membership f c ds) [
        | none ↦ none
        | some (rest, changed) ↦ some (none ∷ rest, changed)
      ]
  refresh_device_session_membership f c (some d ∷ ds) =
      let others = refresh_device_session_membership f c ds in
      elim (in_any_session f c c.sessions d.id) [
        | none ↦ none
        | some b ↦ elim others [
          | none ↦ none
          | some (rest, changed) ↦
              if same_bool b d.in_any_session
              then some (some d ∷ rest, changed)
              else some (some (record d { in_any_session = b }) ∷ rest, (d.id, b) ∷ changed)
        ]
      ]

  -- A device's chain of parents is shorter than the fuel.
  abbrev pub AreRooted : ℕ → Config T → List (Option Member) → Type 0
  AreRooted f c [] = Unit {0}
  AreRooted f c (none ∷ ds) = AreRooted f c ds
  AreRooted f c (some d ∷ ds) =
      ((p : String) × (ch : Chain (group_parent c) p) × (node_parent c d.id ≡ some p)
        × (length (visited ch) < f))
      × AreRooted f c ds

  in_any_session-returns :
      (f : ℕ) (c : Config T) (sessions : List (List String)) (node : String) {p : String}
      (ch : Chain (group_parent c) p)
      → node_parent c node ≡ some p
      → length (visited ch) < f
      → (b : Bool) × (in_any_session f c sessions node ≡ some b)
  unfolding in_any_session
  in_any_session-returns f c [] node ch e h = (false, refl)
  in_any_session-returns f c (d ∷ ds) node ch e h =
      let (b, rest) = in_any_session-returns f c ds node ch e h in
      let r = effective_session_enabled-Chain c f d node ch e h in
      elim (Bool-cases (not (contains d node) && none_in d (visited ch))) [
        | inl k ↦ (true, ground (arith, r, k))
        | inr k ↦ (b, ground (arith, r, k, rest))
      ]

  -- Every device holds whether some session includes it.
  abbrev pub AreMembers : ℕ → Config T → List (Option Member) → Type 0
  AreMembers f c [] = Unit {0}
  AreMembers f c (none ∷ ds) = AreMembers f c ds
  AreMembers f c (some d ∷ ds) =
      (in_any_session f c c.sessions d.id ≡ some d.in_any_session) × AreMembers f c ds

  -- With fuel above the chains of the devices' parents a refresh ends. Every device then holds whether
  -- some session includes it, and a second refresh changes and notifies nothing.
  pub refresh-AreMembers :
      (f : ℕ) (c : Config T) (ds : List (Option Member))
      → AreRooted f c ds
      → (ds' : List (Option Member)) × (changed : List (String × Bool))
        × (refresh_device_session_membership f c ds ≡ some (ds', changed))
        × AreMembers f c ds'
        × (refresh_device_session_membership f c ds' ≡ some (ds', []))
  unfolding refresh_device_session_membership
  refresh-AreMembers f c [] v = ([], [], refl, tt, refl)
  refresh-AreMembers f c (none ∷ ds) v =
      let (ds', changed, e, m, again) = refresh-AreMembers f c ds v in
      (none ∷ ds', changed, ground (arith, e), m, ground (arith, again))
  refresh-AreMembers f c (some d ∷ ds) ((p, ch, n, h), v) =
      let (ds', changed, e, m, again) = refresh-AreMembers f c ds v in
      let (b, r) = in_any_session-returns f c c.sessions d.id ch n h in
      elim (Bool-cases (same_bool b d.in_any_session)) [
        | inl k ↦ (
          some d ∷ ds',
          changed,
          ground (arith, r, e, k),
          (r ∙ ap some (same_bool_eq b d.in_any_session k), m),
          ground (arith, r, again, k),
        )
        | inr k ↦ (
          some (record d { in_any_session = b }) ∷ ds',
          (d.id, b) ∷ changed,
          ground (arith, r, e, k),
          (r, m),
          ground (arith, r, again, same_bool_refl b),
        )
      ]
