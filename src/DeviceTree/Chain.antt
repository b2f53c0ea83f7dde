-- ===== src/DeviceTree/Chain.antt =====
-- Parent chains, apart from any loop that walks them.
use pointcaster.Prelude.{String, true, false, Option, none, some, List, [], ◌∷◌, ◌≡◌}
use pointcaster.DeviceTree.{Config, Group, is_empty, group_by_id}

-- `Chain next p`: going up from `p` by `next` ends, at the empty id or at an id without a parent.
pub data Chain (next : String → Option String) : String → Type 0 where
  root : {p : String} → is_empty p ≡ true → Chain next p
  orphan : {p : String} → is_empty p ≡ false → next p ≡ none → Chain next p
  up : {p q : String} → is_empty p ≡ false → next p ≡ some q → Chain next q → Chain next p

-- The ids that the walk looks at, the nearest first.
abbrev pub visited : {next : String → Option String} {p : String} → Chain next p → List String
visited (root e) = []
visited (orphan {p} e n) = p ∷ []
visited (up {p} e n ch) = p ∷ visited ch

-- The groups that stand at some ids.
unfoldable pub groups_at : {T : Type 0} → Config T → List String → List (Group T)
groups_at c [] = []
groups_at c (p ∷ ps) = elim (group_by_id c p) [
  | none ↦ groups_at c ps
  | some g ↦ g ∷ groups_at c ps
]
