-- ===== src/PointCloud/Bounds.antt =====
-- The bounds that `operator+=` of src/core/point_cloud.cc extends.
use pointcaster.Prelude.{List, [], ◌∷◌, ◌++◌, arith}
use pointcaster.Prelude.Int.{ℤ, ◌≤ℤ◌}
use pointcaster.PointCloud.{Position, PositionBounds, encompass, lower_ℤ, upper_ℤ}
use pointcaster.PointCloud.Append.{encompass_all}

abbrev pub IsWithin : PositionBounds → Position → Type 0
IsWithin b p =
    (b.lower.x ≤ℤ p.x)
    × (b.lower.y ≤ℤ p.y)
    × (b.lower.z ≤ℤ p.z)
    × (p.x ≤ℤ b.upper.x)
    × (p.y ≤ℤ b.upper.y)
    × (p.z ≤ℤ b.upper.z)

abbrev pub AreWithin : PositionBounds → List Position → Type 0
AreWithin b [] = Unit {0}
AreWithin b (p ∷ ps) = IsWithin b p × AreWithin b ps

pub lower_keeps : (p m q : ℤ) → m ≤ℤ q → lower_ℤ p m ≤ℤ q
lower_keeps p m q h = ground arith

pub upper_keeps : (p m q : ℤ) → q ≤ℤ m → q ≤ℤ upper_ℤ p m
upper_keeps p m q h = ground arith

pub lower_reaches : (p m : ℤ) → lower_ℤ p m ≤ℤ p
lower_reaches p m = ground arith

pub upper_reaches : (p m : ℤ) → p ≤ℤ upper_ℤ p m
upper_reaches p m = ground arith

pub encompass-IsWithin :
    (b : PositionBounds) (p q : Position) → IsWithin b q → IsWithin (encompass b p) q
unfolding encompass
encompass-IsWithin b p q (lx, ly, lz, ux, uy, uz) = (
  lower_keeps p.x b.lower.x q.x lx,
  lower_keeps p.y b.lower.y q.y ly,
  lower_keeps p.z b.lower.z q.z lz,
  upper_keeps p.x b.upper.x q.x ux,
  upper_keeps p.y b.upper.y q.y uy,
  upper_keeps p.z b.upper.z q.z uz,
)

pub encompass-IsWithin_self : (b : PositionBounds) (p : Position) → IsWithin (encompass b p) p
unfolding encompass
encompass-IsWithin_self b p = (
  lower_reaches p.x b.lower.x,
  lower_reaches p.y b.lower.y,
  lower_reaches p.z b.lower.z,
  upper_reaches p.x b.upper.x,
  upper_reaches p.y b.upper.y,
  upper_reaches p.z b.upper.z,
)

pub encompass_all-IsWithin :
    (b : PositionBounds) (ps : List Position) (q : Position)
    → IsWithin b q
    → IsWithin (encompass_all b ps) q
unfolding encompass_all
encompass_all-IsWithin b [] q h = h
encompass_all-IsWithin b (p ∷ ps) q h =
    encompass_all-IsWithin (encompass b p) ps q (encompass-IsWithin b p q h)

pub encompass_all-AreWithin :
    (b : PositionBounds) (ps : List Position) → AreWithin (encompass_all b ps) ps
unfolding encompass_all
encompass_all-AreWithin b [] = tt
encompass_all-AreWithin b (p ∷ ps) = (
  encompass_all-IsWithin (encompass b p) ps p (encompass-IsWithin_self b p),
  encompass_all-AreWithin (encompass b p) ps,
)

pub AreWithin-append :
    (b : PositionBounds) (ps qs : List Position)
    → AreWithin b ps
    → AreWithin (encompass_all b qs) (ps ++ qs)
AreWithin-append b [] qs h = encompass_all-AreWithin b qs
AreWithin-append b (p ∷ ps) qs (h, hs) =
    (encompass_all-IsWithin b qs p h, AreWithin-append b ps qs hs)
