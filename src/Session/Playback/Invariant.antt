-- ===== src/Session/Playback/Invariant.antt =====
-- What holds of the playback state of src/session/session.cc between two calls.
use pointcaster.Prelude.{◌≡◌, false, List, [], ◌∷◌, arith, refl, Bool-cases, inl, inr}
use pointcaster.Prelude.Int.{ℤ, pos, ◌≤ℤ◌, max_ℤ, max_ℤ_le_left, int_laws}
use pointcaster.Session.{Double, Effect, scrub, notify}
use pointcaster.Session.Playback.{
  Playback, Call, play, pause, stop, to_frame, set_fps, set_loop, set_looping, configure, advance,
  init, advance_playback, step_frames, snap, step, run, update_config, playback_play,
  playback_pause, playback_stop, playback_scrub, playback_set_loop, playback_set_looping,
  playback_set_fps,
}
use pointcaster.Session.Playback.Advance.{advance_playback_region}

pub record IsValid {D : Double} (s : Playback D) : Type 0 where
  pub frame_nonneg : pos 0 ≤ℤ s.current_frame
  pub start_nonneg : pos 0 ≤ℤ s.start_frame
  pub fps_positive : pos 1 ≤ℤ s.fps

-- Each scrub goes to the given frame.
abbrev ScrubsTo : ℤ → List Effect → Type 0
ScrubsTo frame [] = Unit {0}
ScrubsTo frame (scrub f ∷ es) = (f ≡ frame) × ScrubsTo frame es
ScrubsTo frame (notify ∷ es) = ScrubsTo frame es

max_nonneg : (a b : ℤ) → pos 0 ≤ℤ a → pos 0 ≤ℤ max_ℤ a b
max_nonneg a b h = omega (arith, max_ℤ_le_left a b)

module _ {D : Double} where
  pub init-IsValid : IsValid (init {D = D})
  unfolding init
  init-IsValid = omega arith

  advance_fields :
      (dt : Double.Value D) (total : ℤ) (s : Playback D)
      → ((advance_playback dt total s).0.start_frame ≡ s.start_frame)
        × ((advance_playback dt total s).0.fps ≡ s.fps)
        × (s.playing ≡ false → advance_playback dt total s ≡ (s, []))
  unfolding advance_playback step_frames snap
  advance_fields dt total s = (ground arith, ground arith, λ p. ground arith)

  advance-IsValid :
      (dt : Double.Value D) (total : ℤ) (s : Playback D)
      → IsValid s
      → IsValid (advance_playback dt total s).0
  advance-IsValid dt total s v = elim (Bool-cases s.playing) [
    | inl p ↦
        let (a, b, c, d) = advance_playback_region dt total s p in
        let (e, f, g) = advance_fields dt total s in
        record {
          frame_nonneg = omega (int_laws);
          start_nonneg = rw e v.start_nonneg;
          fps_positive = rw f v.fps_positive;
        }
    | inr p ↦ let (e, f, g) = advance_fields dt total s in rw (g p) v
  ]

  -- Every call keeps the frame and the loop's start on the timeline, and the rate above 0.
  pub step-IsValid : (s : Playback D) (c : Call D) → IsValid s → IsValid (step s c).0
  unfolding step playback_play playback_pause playback_stop playback_scrub playback_set_loop
      playback_set_looping playback_set_fps update_config
  step-IsValid s play v = omega (arith, v)
  step-IsValid s pause v = omega (arith, v)
  step-IsValid s stop v = omega (arith, v, max_nonneg (pos 0) s.start_frame (omega arith))
  step-IsValid s (to_frame frame) v =
      omega (arith, v, max_nonneg s.start_frame frame v.start_nonneg)
  step-IsValid s (set_fps fps) v = omega (arith, v, max_ℤ_le_left (pos 1) fps)
  step-IsValid s (set_loop in_frame out_frame) v = omega (arith, v, max_ℤ_le_left (pos 0) in_frame)
  step-IsValid s (set_looping looping) v = omega (arith, v)
  step-IsValid s (configure tl) v =
      let start = max_ℤ (pos 0) tl.start_frame in
      let st = max_ℤ_le_left (pos 0) tl.start_frame in
      ground (
        arith,
        v,
        st,
        max_nonneg start tl.current_frame st,
        max_nonneg start s.current_frame st,
        max_ℤ_le_left (pos 1) tl.fps,
      )
  step-IsValid s (advance dt total) v = advance-IsValid dt total s v

  -- After any history of calls and clock passes from such a state, the frame and the loop's start are
  -- not negative and the rate is above 0.
  pub run-IsValid : (s : Playback D) (cs : List (Call D)) → IsValid s → IsValid (run s cs).0
  unfolding run
  run-IsValid s [] v = v
  run-IsValid s (c ∷ cs) v = run-IsValid (step s c).0 cs (step-IsValid s c v)

  -- A call that scrubs the devices scrubs them to the frame at which it leaves the session.
  step-ScrubsTo : (s : Playback D) (c : Call D) → ScrubsTo (step s c).0.current_frame (step s c).1
  unfolding step playback_play playback_pause playback_stop playback_scrub playback_set_loop
      playback_set_looping playback_set_fps advance_playback step_frames snap
  step-ScrubsTo s play = (refl, tt)
  step-ScrubsTo s pause = tt
  step-ScrubsTo s stop = (refl, tt)
  step-ScrubsTo s (to_frame frame) = (refl, tt)
  step-ScrubsTo s (set_fps fps) = tt
  step-ScrubsTo s (set_loop in_frame out_frame) = tt
  step-ScrubsTo s (set_looping looping) = tt
  step-ScrubsTo s (configure tl) = tt
  step-ScrubsTo s (advance dt total) = ground arith
