-- ===== src/Session/Playback/Advance.antt =====
-- The master clock of src/session/session.cc: where `advance_playback` can leave the session.
use pointcaster.Prelude.{◌<◌, ◌%◌, ◌≡◌, Bool, true, false, arith, refl, inl, inr, Bool-cases}
use native.Mathlib.Nat.{mod-eq_of_lt}
use pointcaster.Prelude.Int.{
  ℤ, pos, ◌+ℤ◌, ◌-ℤ◌, ◌%ℤ◌, ◌≤ℤ◌, max_ℤ, ltb_ℤ, int_laws, max_ℤ_le_left, clamp_ℤ_ge, clamp_ℤ_le,
  %ℤ_parts, pos_part, neg_part,
}
use pointcaster.Session.{Double}
use pointcaster.Session.Playback.{
  Playback, last_frame, loop_start, loop_end, snap, wrap, step_frames, advance_playback,
}

ltb_ℤ_lt : (a b : ℤ) → ltb_ℤ a b ≡ true → pos 1 +ℤ a ≤ℤ b
unfolding ◌+ℤ◌
ltb_ℤ_lt a b h = ground arith

ltb_ℤ_ge : (a b : ℤ) → ltb_ℤ a b ≡ false → b ≤ℤ a
ltb_ℤ_ge a b h = ground arith

ltb_ℤ-true : (a b : ℤ) → pos 1 +ℤ a ≤ℤ b → ltb_ℤ a b ≡ true
unfolding ◌+ℤ◌
ltb_ℤ-true a b h = ground arith

ltb_ℤ-false : (a b : ℤ) → b ≤ℤ a → ltb_ℤ a b ≡ false
ltb_ℤ-false a b h = ground arith

module _ {D : Double} (s : Playback D) (total : ℤ) where
  last_frame_nonneg : pos 0 ≤ℤ last_frame s total
  unfolding last_frame
  last_frame_nonneg = max_ℤ_le_left (pos 0) _

  -- The loop region of the clock is never empty and lies on the timeline.
  pub loop_region :
      (pos 0 ≤ℤ loop_start s total)
      × (loop_start s total ≤ℤ loop_end s total)
      × (loop_end s total ≤ℤ last_frame s total)
  unfolding loop_start loop_end
  loop_region =
      let last = last_frame s total in
      let lo = clamp_ℤ_ge s.start_frame (pos 0) last last_frame_nonneg in
      let hi = clamp_ℤ_le s.start_frame (pos 0) last last_frame_nonneg in
      ground (
        arith,
        lo,
        hi,
        clamp_ℤ_ge s.end_frame (loop_start s total) last,
        clamp_ℤ_le s.end_frame (loop_start s total) last,
      )

  snap_region :
      (start last : ℤ)
      → start ≤ℤ last
      → (start ≤ℤ (snap s start last).current_frame) × ((snap s start last).current_frame ≤ℤ last)
  unfolding snap
  snap_region start last h = ground (arith)

-- Whatever frame comes next, the clock leaves it in the loop region.
wrap_region :
    (looping : Bool) (start last next : ℤ)
    → start ≤ℤ last
    → start ≤ℤ next
    → (start ≤ℤ (wrap looping start last next).0) × ((wrap looping start last next).0 ≤ℤ last)
unfolding wrap
wrap_region false start last next h k = ground arith
wrap_region true start last next h k =
    let span = last -ℤ start +ℤ pos 1 in
    let r = (next -ℤ start) %ℤ span in
    let x : pos 0 ≤ℤ next -ℤ start = omega int_laws in
    let y : pos 1 ≤ℤ span = omega int_laws in
    let (a, b, _) = %ℤ_parts (next -ℤ start) span x y in
    let lo : start ≤ℤ start +ℤ r = omega (int_laws) in
    let hi : start +ℤ r ≤ℤ last = omega (int_laws) in ground (arith, lo, hi)

step_frames_region :
    {D : Double} (start last : ℤ) (dt : Double.Value D) (s : Playback D)
    → start ≤ℤ last
    → start ≤ℤ s.current_frame
    → s.current_frame ≤ℤ last
    → (start ≤ℤ (step_frames start last dt s).0.current_frame)
      × ((step_frames start last dt s).0.current_frame ≤ℤ last)
unfolding step_frames
step_frames_region {D} start last dt s h lo hi =
    let n = Double.truncate D (Double.accumulate D s.accum dt (max_ℤ (pos 1) s.fps)) in
    elim (Bool-cases (ltb_ℤ (pos 0) n)) [
      | inl up ↦
          let k : start ≤ℤ s.current_frame +ℤ n = omega (int_laws, ltb_ℤ_lt (pos 0) n up) in
          ground (arith, up, wrap_region s.looping start last (s.current_frame +ℤ n) h k)
      | inr still ↦ ground (arith, still)
    ]

module _ {D : Double} (dt : Double.Value D) (total : ℤ) (s : Playback D) where
  -- While the session plays, each pass of the clock leaves the frame inside the loop region, and
  -- the region on the timeline, however far `dt` carries it.
  pub advance_playback_region :
      s.playing ≡ true
      → (loop_start s total ≤ℤ (advance_playback dt total s).0.current_frame)
        × ((advance_playback dt total s).0.current_frame ≤ℤ loop_end s total)
        × (pos 0 ≤ℤ loop_start s total)
        × (loop_end s total ≤ℤ last_frame s total)
  unfolding advance_playback
  advance_playback_region p =
      let start = loop_start s total in
      let last = loop_end s total in
      let (a, b, c) = loop_region s total in
      let (lo, hi) = snap_region s total start last b in
      let moved = step_frames_region start last dt (snap s start last) b lo hi in
      ground (arith, p, moved, a, c)

neg_part_zero : (a : ℤ) → pos 0 ≤ℤ a → neg_part a ≡ 0
neg_part_zero a h = ground arith

wrap_looping :
    (start last next : ℤ)
    → start ≤ℤ last
    → start ≤ℤ next
    → (pos_part ((wrap true start last next).0 -ℤ start)
        ≡ pos_part (next -ℤ start) % pos_part (last -ℤ start +ℤ pos 1))
      × ((wrap true start last next).1 ≡ true)
unfolding wrap
wrap_looping start last next region lo =
    let span = last -ℤ start +ℤ pos 1 in
    let x : pos 0 ≤ℤ next -ℤ start = omega int_laws in
    let y : pos 1 ≤ℤ span = omega int_laws in
    elim (Bool-cases (ltb_ℤ last next)) [
      | inl over ↦
          let (a, b, c) = %ℤ_parts (next -ℤ start) span x y in
          let d : start +ℤ (next -ℤ start) %ℤ span -ℤ start ≡ (next -ℤ start) %ℤ span =
            omega int_laws in
          ground (arith, over, c, d)
      | inr within ↦
          let small : pos_part (next -ℤ start) < pos_part span = omega (
            int_laws,
            ltb_ℤ_ge last next within,
            neg_part_zero (next -ℤ start) x,
            neg_part_zero span (omega (arith, y)),
          ) in
          ground (arith, within, mod-eq_of_lt small)
    ]

wrap_once :
    (start last next : ℤ)
    → (pos 1 +ℤ last ≤ℤ next → wrap false start last next ≡ (last, false))
      × (next ≤ℤ last → wrap false start last next ≡ (next, true))
unfolding wrap
wrap_once start last next =
    (λ x. ground (arith, ltb_ℤ-true last next x), λ x. ground (arith, ltb_ℤ-false last next x))

-- The whole frames that `dt` completes.
abbrev pub frames_passed : {D : Double} → Double.Value D → Playback D → ℤ
frames_passed {D} dt s = Double.truncate D (Double.accumulate D s.accum dt (max_ℤ (pos 1) s.fps))

-- What the clock does from a frame inside the loop region, by the frames that have passed.
module _ {D : Double} (start last : ℤ) (dt : Double.Value D) (s : Playback D)
    (ahead : ltb_ℤ (pos 0) (frames_passed dt s) ≡ true) (region : start ≤ℤ last)
    (lo : start ≤ℤ s.current_frame) where
  abbrev pub after : Playback D
  after = (step_frames start last dt s).0

  step_frames_wraps :
      (after.current_frame ≡ (wrap s.looping start last (s.current_frame +ℤ frames_passed dt s)).0)
      × (after.playing ≡ (wrap s.looping start last (s.current_frame +ℤ frames_passed dt s)).1)
  unfolding step_frames
  step_frames_wraps = ground (arith, ahead)

  -- Once a whole frame has passed, a looping session in a loop region that is not empty keeps its
  -- phase: its offset in the loop grows by the frames passed, modulo the loop's length, and playback
  -- goes on.
  pub step_frames_looping :
      s.looping ≡ true
      → (pos_part (after.current_frame -ℤ start)
          ≡ pos_part (s.current_frame +ℤ frames_passed dt s -ℤ start)
            % pos_part (last -ℤ start +ℤ pos 1))
        × (after.playing ≡ true)
  step_frames_looping l =
      let next = s.current_frame +ℤ frames_passed dt s in
      let k : start ≤ℤ next = omega (int_laws, ltb_ℤ_lt (pos 0) (frames_passed dt s) ahead) in
      let (a, b) = step_frames_wraps in
      let (c, d) = wrap_looping start last next region k in (rw (a, l) c, rw (b, l) d)

  -- A session that does not loop plays to the end of the region and stops there.
  pub step_frames_once :
      s.looping ≡ false
      → (pos 1 +ℤ last ≤ℤ s.current_frame +ℤ frames_passed dt s
          → (after.current_frame ≡ last) × (after.playing ≡ false))
        × (s.current_frame +ℤ frames_passed dt s ≤ℤ last
            → (after.current_frame ≡ s.current_frame +ℤ frames_passed dt s)
              × (after.playing ≡ true))
  step_frames_once l =
      let (a, b) = step_frames_wraps in
      let (c, d) = wrap_once start last (s.current_frame +ℤ frames_passed dt s) in
      (
        λ x. (rw (a, l, c x) refl, rw (b, l, c x) refl),
        λ x. (rw (a, l, d x) refl, rw (b, l, d x) refl),
      )
