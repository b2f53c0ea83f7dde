-- ===== src/Tests/PlyLoader.antt =====
-- A loader of ten files whose clouds are the sum of the frame, the units and the attributes.
use pointcaster.Prelude.{ℕ, ◌+◌, ◌<◌, ◌≤◌, ◌≡◌, Option, none, some, [], ◌∷◌, arith, refl, length}
use pointcaster.PlyLoader.{Loader, resting, starting, prepared, decoded, open_loader, cached}
use pointcaster.PlyLoader.Steps.{put, miss, prepare, decode, keep, Reach, here, next}
use pointcaster.PlyLoader.Coherence.{cached-read}
use pointcaster.PlyLoader.Window.{
  sub_word, min_word, last_of_loop, loop_range, effective_ahead, frame_index, frames_from,
  prefetched,
}
use pointcaster.PlyLoader.Window.Frames.{All, AreDistinct, prefetched_window}

abbrev sum : ℕ → ℕ → ℕ → Option ℕ
sum f u a = some (f + u + a)

abbrev opened : Loader ℕ ℕ ℕ
opened = open_loader 10 8 100 1000

abbrev loaded : Loader ℕ ℕ ℕ
loaded = record opened {
  slot = put opened.slot 3 (record { ring = some 1103; index = some 3; claimed = none });
  load =
      put
        (put (put (put opened.load 0 (starting 3 0)) 0 (prepared 3 0 1000)) 0
          (decoded 3 0 (some 1103)))
        0 resting;
}

frame_loads : Reach sum opened loaded
unfolding open_loader cached
frame_loads =
    next
      (next (next (next here (miss 0 3 (omega arith) refl refl refl)) (prepare 0 3 0 refl refl))
        (decode 0 3 0 1000 refl refl))
      (keep 0 3 0 1103 refl refl refl)

loaded_hit : cached loaded 3 ≡ some 1103
unfolding open_loader cached
loaded_hit = refl

cached-read_example : sum 3 loaded.units loaded.attributes ≡ some 1103
unfolding open_loader
cached-read_example = cached-read sum 10 8 100 1000 3 frame_loads refl loaded_hit

-- From frame 8 of a loop over 5 to 9, around the end of it.
around : prefetched 5 99 10 4 8 8 ≡ 9 ∷ 5 ∷ 6 ∷ 7 ∷ []
unfolding prefetched effective_ahead loop_range last_of_loop min_word sub_word frames_from
    frame_index
around = refl

last_frame_index : last_of_loop 99 10 ≡ 9
unfolding last_of_loop min_word sub_word
last_frame_index = refl

prefetched_window_example :
    let fs = prefetched 5 99 10 4 8 8 in
    All (λ f. (5 ≤ f) × (f ≤ last_of_loop 99 10)) fs
    × AreDistinct (8 ∷ fs)
    × (length fs < 8)
    × (length fs ≤ 4)
prefetched_window_example =
    prefetched_window 5 99 10 4 8 8 (omega arith) (omega arith) (omega arith) (omega arith)
      (omega arith) (omega (arith, last_frame_index))
