-- ===== src/PlyLayout/Files/Offsets.antt =====
-- Offsets in a mapped file, and the lengths of what src/plugins/devices/ply/ply_layout.cc reads.
use native.Mathlib.Nat.{mul-le-mul, mul-le-mul_right}
use pointcaster.Prelude.{
  ℕ, zero, suc, ◌+◌, ◌-◌, ◌*◌, ◌^◌, ◌<◌, ◌≤◌, ltb, leb, ◌≡◌, inl, inr, Bool, true, Option, none,
  some, List, [], ◌∷◌, take, drop, length, get_or, ◌&&◌, if◌then◌else◌, arith, refl, ap, Bool-cases,
  Option-cases, length-drop, length-take,
}
use pointcaster.Wire.{Bytes, starts_with}
use pointcaster.PlyLayout.{Element, property_of, no_type, Property}
use pointcaster.PlyLayout.Numbers.{width_of, little_endian, reversed, load_scalar}
use pointcaster.PlyLayout.Files.{find_bytes, end_header, line_after, data_offset_of, each, tabulate}

find_bytes_lt : (wanted xs : Bytes) (i : ℕ) → find_bytes wanted xs ≡ some i → i < length xs
unfolding find_bytes
find_bytes_lt wanted [] i h = cc
find_bytes_lt wanted (x ∷ xs) i h = elim (Bool-cases (starts_with (x ∷ xs) wanted)) [
  | inl e ↦ ground (arith, e, h)
  | inr e ↦ elim (Option-cases (find_bytes wanted xs)) [
    | inl n ↦ ground (arith, e, n, h)
    | inr (k, n) ↦ ground (arith, e, n, h, find_bytes_lt wanted xs k n)
  ]
]

line_after_le :
    (header : Bytes) (found : ℕ)
    → found < length header
    → line_after header (some found) ≤ length header
unfolding line_after
line_after_le header found h = elim (Option-cases (find_bytes (10 ∷ []) (drop found header))) [
  | inl n ↦ ground (arith, n)
  | inr (k, n) ↦
      ground
        (arith, n, find_bytes_lt (10 ∷ []) (drop found header) k n, length-drop found header, h)
]

at_none : (header : Bytes) → line_after header none ≤ length header
unfolding line_after
at_none header = omega arith

line_after-find_bytes :
    (header : Bytes) → line_after header (find_bytes end_header header) ≤ length header
line_after-find_bytes header = elim (Option-cases (find_bytes end_header header)) [
  | inl n ↦ rw n (at_none header)
  | inr (k, n) ↦ rw n (line_after_le header k (find_bytes_lt end_header header k n))
]

-- The data starts within the first 65536 bytes.
pub data_offset_of_le : (contents : Bytes) → data_offset_of contents ≤ 65536
unfolding data_offset_of
data_offset_of_le contents =
    omega (arith, line_after-find_bytes (take 65536 contents), length-take 65536 contents)

pub each-length :
    {A : Type 0} (i n : ℕ) (f : ℕ → Option A)
    → ((j : ℕ) → j < i + n → (a : A) × (f j ≡ some a))
    → (xs : List A) × (each i n f ≡ some xs) × (length xs ≡ n)
unfolding each
each-length i zero f h = ([], refl, refl)
each-length i (suc n) f h =
    let (a, e) = h i (omega arith) in
    let (xs, r, k) = each-length (suc i) n f (λ j p. h j (omega (arith, p))) in
    (a ∷ xs, ground (arith, e, r), ap suc k)

pub length-tabulate : {A : Type 0} (i n : ℕ) (f : ℕ → A) → length (tabulate i n f) ≡ n
unfolding tabulate
length-tabulate i zero f = refl
length-tabulate i (suc n) f = ap suc (length-tabulate (suc i) n f)

-- Each value lies within its row.
abbrev pub FitsRow : Element → Type 0
FitsRow e =
    (index : ℕ)
    → index < length e.properties
    → (property_of e index).offset + width_of (property_of e index).value_type ≤ e.row_stride

get_or-past :
    (ps : List Property) (index : ℕ) (d : Property) → length ps ≤ index → get_or ps index d ≡ d
get_or-past [] index d h = refl
get_or-past (p ∷ ps) zero d h = absurd (omega (arith, h))
get_or-past (p ∷ ps) (suc index) d h = get_or-past ps index d (omega (arith, h))

pub load_scalar-within :
    (contents : Bytes) (offset width : ℕ) (swap_bytes : Bool)
    → offset + width ≤ length contents
    → (n : ℕ) × (load_scalar contents offset width swap_bytes ≡ some n)
unfolding load_scalar
load_scalar-within contents offset width swap_bytes h =
    let within : leb (offset + width) (length contents) ≡ true = ground (arith, h) in
    let value = take width (drop offset contents) in
    (
      if swap_bytes && ltb 1 width then little_endian (reversed value) else little_endian value,
      rw within refl,
    )

pub row_end : (i count stride : ℕ) → i < count → i * stride + stride ≤ count * stride
row_end i count stride h =
    let k : suc i * stride ≤ count * stride =
      mul-le-mul_right {m = suc i} {n = count} stride (omega (arith, h)) in
    omega (arith, k)

pub rows_small :
    (count stride : ℕ) → count < 2 ^ 32 → stride < 2 ^ 32 → count * stride < 2 ^ 64 - 65536
rows_small count stride h k =
    let p : count * stride ≤ 4294967295 * 4294967295 =
      mul-le-mul {n₁ = count} {m₁ = stride} {n₂ = 4294967295} {m₂ = 4294967295} (omega (arith, h))
        (omega (arith, k)) in
    omega (arith, p)

pub property_of-fits :
    (e : Element) (index : ℕ)
    → FitsRow e
    → (property_of e index).offset + width_of (property_of e index).value_type ≤ e.row_stride
property_of-fits e index fits = elim (Bool-cases (ltb index (length e.properties))) [
  | inl h ↦ fits index (ground (arith, h))
  | inr h ↦
      rw
        (get_or-past e.properties index
          (record { name = ""; offset = 0; value_type = no_type; count_type = no_type })
          (ground (arith, h)))
        (omega arith)
]
