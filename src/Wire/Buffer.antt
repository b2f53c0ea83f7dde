-- ===== src/Wire/Buffer.antt =====
-- `copy_to_buffer` of src/pointreceiver/pointreceiver.cc.
use pointcaster.Prelude.{
  ℕ, zero, suc, ◌+◌, ◌-◌, ◌%◌, ◌^◌, ◌<◌, ◌≤◌, ◌≡◌, ltb, ◌==◌, Bool, true, false, [], ◌∷◌, ◌++◌,
  length, take, some, arith, refl, ap, length-append, length-take, ==_iff,
}
use pointcaster.Wire.{Bytes, has_nul, separated}

-- `capacity - 1` of a `size_t`.
abbrev pub last_offset : ℕ → ℕ
last_offset capacity = (capacity + 2 ^ 64 - 1) % 2 ^ 64

-- The bytes written from the start of the buffer, and whether the source fits.
unfoldable pub copy_to_buffer : ℕ → Bytes → Bytes × Bool
copy_to_buffer capacity source =
    let copied = take (last_offset capacity) source in
    (copied ++ 0 ∷ [], length copied == length source)

pub last_offset_pos :
    (capacity : ℕ) → 0 < capacity → capacity < 2 ^ 64 → last_offset capacity ≡ capacity - 1
last_offset_pos capacity h k = omega arith

separated-append : (a : Bytes) → has_nul a ≡ false → separated (a ++ 0 ∷ []) ≡ some (a, [])
unfolding separated has_nul
separated-append [] h = refl
separated-append (x ∷ a) h = ground (arith, h, separated-append a)

has_nul-take : (n : ℕ) (a : Bytes) → has_nul a ≡ false → has_nul (take n a) ≡ false
unfolding has_nul
has_nul-take zero a h = refl
has_nul-take (suc n) [] h = refl
has_nul-take (suc n) (x ∷ a) h = ground (arith, h, has_nul-take n a)

-- Into a buffer with room for at least one byte, the copy writes no more bytes than the buffer holds.
-- They read as the string of the source's first `capacity - 1` bytes, and the result says whether the
-- whole source fits with its zero byte.
pub copy_to_buffer-fits :
    (capacity : ℕ) (source : Bytes)
    → 0 < capacity
    → capacity < 2 ^ 64
    → has_nul source ≡ false
    → (length (copy_to_buffer capacity source).0 ≤ capacity)
      × (separated (copy_to_buffer capacity source).0 ≡ some (take (capacity - 1) source, []))
      × ((copy_to_buffer capacity source).1 ≡ ltb (length source) capacity)
unfolding copy_to_buffer
copy_to_buffer-fits capacity source h k n =
    let c = last_offset_pos capacity h k in
    rw c (
      omega (
        arith,
        h,
        length-append (take (capacity - 1) source) (0 ∷ []),
        length-take (capacity - 1) source,
      ),
      separated-append (take (capacity - 1) source) (has_nul-take (capacity - 1) source n),
      ground (arith, h, length-take (capacity - 1) source),
    )

take-length : (n : ℕ) (xs : Bytes) → length xs ≤ n → take n xs ≡ xs
take-length zero [] h = refl
take-length zero (x ∷ xs) h = absurd (omega (arith, h))
take-length (suc n) [] h = refl
take-length (suc n) (x ∷ xs) h = ap (◌∷◌ x) (take-length n xs (omega (arith, h)))

-- Into a buffer with room for no byte, the copy still writes the whole source and a zero byte.
pub copy_to_buffer-overflows :
    (source : Bytes) → length source < 2 ^ 64 → copy_to_buffer 0 source ≡ (source ++ 0 ∷ [], true)
unfolding copy_to_buffer
copy_to_buffer-overflows source h =
    rw (take-length (last_offset 0) source (omega (arith, h)))
      (ap (λ b. (source ++ 0 ∷ [], b)) ((==_iff (length source) (length source)).1 refl))
