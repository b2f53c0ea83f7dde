-- ===== src/PlyLoader/Window/Frames.antt =====
-- What `prefetch_from` of src/plugins/devices/ply/ply_sequence_loader.cc asks for.
use native.Mathlib.Nat.{mod-eq_of_lt, mod-eq-sub-mod, mod-lt}
use pointcaster.Prelude.{
  ℕ, zero, suc, ◌+◌, ◌-◌, ◌<◌, ◌≤◌, ◌≡◌, ◌≢◌, ◌%◌, ◌^◌, List, [], ◌∷◌, arith, refl, inl, inr, ltb,
  Bool-cases, ◌∙◌, if◌then◌else◌, length, subst,
}
use pointcaster.PlyLoader.Window.{
  sub_word, min_word, last_of_loop, loop_range, effective_ahead, frame_index, frames_from,
  prefetched,
}

abbrev pub All : (ℕ → Type 0) → List ℕ → Type 0
All P [] = Unit {0}
All P (f ∷ fs) = P f × All P fs

abbrev pub AreDistinct : List ℕ → Type 0
AreDistinct [] = Unit {0}
AreDistinct (f ∷ fs) = All (λ g. f ≢ g) fs × AreDistinct fs

last_of_loop-small :
    (end_index file_count : ℕ)
    → 0 < file_count
    → file_count < 2 ^ 63
    → last_of_loop end_index file_count < 2 ^ 63
unfolding last_of_loop min_word sub_word
last_of_loop-small end_index file_count a b =
    let m : (file_count + (2 ^ 64 - 1)) % 2 ^ 64 ≡ file_count - 1 = omega arith in
    rw m (ground (arith, a, b))

-- Offsets on a circle of `r` places.
circle :
    (x r off : ℕ)
    → x < r
    → off < r
    → (x + off) % r ≡ (if ltb (x + off) r then x + off else x + off - r)
circle x r off h k = elim (Bool-cases (ltb (x + off) r)) [
  | inl e ↦ rw e (mod-eq_of_lt (ground (arith, e)))
  | inr e ↦
      let above : r ≤ x + off = ground (arith, e) in
      rw e (mod-eq-sub-mod above ∙ mod-eq_of_lt (omega (arith, above)))
]

module _ (first last current : ℕ) (small : last < 2 ^ 63) (lo : first ≤ current)
    (hi : current ≤ last) where
  range_plain : loop_range first last ≡ last - first + 1
  unfolding loop_range sub_word
  range_plain = omega arith

  frame_index-circle :
      (off : ℕ)
      → off ≤ last - first
      → frame_index first (loop_range first last) current off
        ≡ first + (current - first + off) % (last - first + 1)
  unfolding frame_index sub_word
  frame_index-circle off h =
      let r = last - first + 1 in
      let plain : (current + (2 ^ 64 - first)) % 2 ^ 64 ≡ current - first = omega arith in
      let sum : (current - first + off) % 2 ^ 64 ≡ current - first + off = omega arith in
      let below : (current - first + off) % r < r = mod-lt (current - first + off) (omega arith) in
      rw (range_plain, plain, sum) (mod-eq_of_lt (omega (arith, below)))

  -- In a loop that `current` lies in, each frame asked for lies in the loop, and offsets up to the
  -- loop's length give different frames, `current` itself standing at offset 0.
  frame_index_distinct :
      (a b : ℕ)
      → a < b
      → b ≤ last - first
      → (first ≤ frame_index first (loop_range first last) current b)
        × (frame_index first (loop_range first last) current b ≤ last)
        × (frame_index first (loop_range first last) current a
            ≢ frame_index first (loop_range first last) current b)
        × (frame_index first (loop_range first last) current 0 ≡ current)
  frame_index_distinct a b h k =
      let r = last - first + 1 in
      let x = current - first in
      let at_a = frame_index-circle a (omega arith) in
      let at_b = frame_index-circle b k in
      let at_0 = frame_index-circle 0 (omega arith) in
      let on_a = circle x r a (omega arith) (omega arith) in
      let on_b = circle x r b (omega arith) (omega arith) in
      let on_0 = circle x r 0 (omega arith) (omega arith) in
      (
        omega (arith, at_b),
        ground (arith, at_b, on_b, small, lo, hi, h, k),
        λ e. ground (arith, at_a, at_b, on_a, on_b, e, small, lo, hi, h, k),
        ground (arith, at_0, on_0, lo, hi),
      )

  frame_index-current : frame_index first (loop_range first last) current 0 ≡ current
  frame_index-current =
      let r = last - first + 1 in
      ground (
        arith,
        frame_index-circle 0 (omega arith),
        circle (current - first) r 0 (omega arith) (omega arith),
        lo,
        hi,
      )

  module _ (region : ℕ) (within : region ≡ loop_range first last) where
    frames_from-region :
        (off n : ℕ)
        → 0 < off
        → off + n ≤ last - first + 1
        → All (λ f. (first ≤ f) × (f ≤ last)) (frames_from first region current off n)
    unfolding frames_from
    frames_from-region off zero h k = tt
    frames_from-region off (suc n) h k =
        let (a, b, _, _) = frame_index_distinct 0 off h (omega arith) in
        (rw within (a, b), frames_from-region (suc off) n (omega arith) (omega arith))

    frames_from-apart :
        (a off n : ℕ)
        → a < off
        → off + n ≤ last - first + 1
        → All (λ f. frame_index first region current a ≢ f) (frames_from first region current off n)
    unfolding frames_from
    frames_from-apart a off zero h k = tt
    frames_from-apart a off (suc n) h k =
        let (_, _, c, _) = frame_index_distinct a off h (omega arith) in
        (rw within c, frames_from-apart a (suc off) n (omega arith) (omega arith))

    frames_from-AreDistinct :
        (off n : ℕ)
        → off + n ≤ last - first + 1
        → AreDistinct (frames_from first region current off n)
    unfolding frames_from
    frames_from-AreDistinct off zero k = tt
    frames_from-AreDistinct off (suc n) k = (
      frames_from-apart off (suc off) n (omega arith) (omega arith),
      frames_from-AreDistinct (suc off) n (omega arith),
    )

-- The lookahead leaves out the current frame: it stays below the ring's size and the loop's length.
effective_ahead_bounds :
    (prefetch_ahead capacity first last : ℕ)
    → 0 < capacity
    → capacity < 2 ^ 64
    → first ≤ last
    → last < 2 ^ 63
    → (effective_ahead prefetch_ahead capacity (loop_range first last) ≤ prefetch_ahead)
      × (effective_ahead prefetch_ahead capacity (loop_range first last) < capacity)
      × (effective_ahead prefetch_ahead capacity (loop_range first last) ≤ last - first)
unfolding effective_ahead min_word sub_word loop_range
effective_ahead_bounds prefetch_ahead capacity first last a b c d =
    let range : ((last + (2 ^ 64 - first)) % 2 ^ 64 + 1) % 2 ^ 64 ≡ last - first + 1 =
      omega arith in
    let cap : (capacity + (2 ^ 64 - 1)) % 2 ^ 64 ≡ capacity - 1 = omega arith in
    let back : (last - first + 1 + (2 ^ 64 - 1)) % 2 ^ 64 ≡ last - first = omega arith in
    rw (range, cap, back) (ground (arith, a, c))

length-frames_from :
    (first range current off n : ℕ) → length (frames_from first range current off n) ≡ n
unfolding frames_from
length-frames_from first range current off zero = refl
length-frames_from first range current off (suc n) =
    ground (arith, length-frames_from first range current (suc off) n)

-- With the current frame in the loop, the loop among the files and a ring that has room, prefetching
-- asks for frames of the loop only, for none of them twice and not for the current one, for fewer than
-- the ring holds, and for no more than the lookahead set.
pub prefetched_window :
    (first end_index file_count prefetch_ahead capacity current : ℕ)
    → 0 < file_count
    → file_count < 2 ^ 63
    → 0 < capacity
    → capacity < 2 ^ 64
    → first ≤ current
    → current ≤ last_of_loop end_index file_count
    → let fs = prefetched first end_index file_count prefetch_ahead capacity current in
      All (λ f. (first ≤ f) × (f ≤ last_of_loop end_index file_count)) fs
      × AreDistinct (current ∷ fs)
      × (length fs < capacity)
      × (length fs ≤ prefetch_ahead)
unfolding prefetched
prefetched_window first end_index file_count prefetch_ahead capacity current a b c d e h =
    let last = last_of_loop end_index file_count in
    let range = loop_range first last in
    let small : last < 2 ^ 63 = last_small in
    let (x, y, z) =
      effective_ahead_bounds prefetch_ahead capacity first last c d (omega arith) small in
    let n = effective_ahead prefetch_ahead capacity range in
    let len = length-frames_from first range current 1 n in
    let at_0 : frame_index first range current 0 ≡ current = start small in
    (
      frames_from-region first last current small e h range refl 1 n (omega arith)
          (omega (arith, z)),
      (
        subst (λ f. All (λ g. f ≢ g) (frames_from first range current 1 n)) at_0
            (frames_from-apart first last current small e h range refl 0 1 n (omega arith)
              (omega (arith, z))),
        frames_from-AreDistinct first last current small e h range refl 1 n (omega (arith, z)),
      ),
      omega (arith, len, y),
      omega (arith, len, x),
    )
  where
    last_small : last_of_loop end_index file_count < 2 ^ 63
    last_small = last_of_loop-small end_index file_count a b

    start :
        last_of_loop end_index file_count < 2 ^ 63
        → frame_index first (loop_range first (last_of_loop end_index file_count)) current 0
          ≡ current
    start small = frame_index-current first (last_of_loop end_index file_count) current small e h
