-- ===== src/PlyLoader/Window.antt =====
-- The frames that `prefetch_from` of src/plugins/devices/ply/ply_sequence_loader.cc asks for. A
-- `size_t` wraps at 2^64.
pub mod Frames
use native.Mathlib.Nat.{mod-eq_of_lt, mod-eq-sub-mod, mod-lt}
use pointcaster.Prelude.{
  ℕ, zero, suc, ◌+◌, ◌-◌, ◌<◌, ◌≤◌, ◌≡◌, ◌≢◌, ◌%◌, ◌^◌, List, [], ◌∷◌, arith, refl, inl, inr, ltb,
  Bool-cases, ◌∙◌, if◌then◌else◌, length, subst,
}

unfoldable pub sub_word : ℕ → ℕ → ℕ
sub_word a b = (a + (2 ^ 64 - b)) % 2 ^ 64

unfoldable pub min_word : ℕ → ℕ → ℕ
min_word a b = if ltb b a then b else a

unfoldable pub last_of_loop : ℕ → ℕ → ℕ
last_of_loop end_index file_count = min_word end_index (sub_word file_count 1)

unfoldable pub loop_range : ℕ → ℕ → ℕ
loop_range first last = (sub_word last first + 1) % 2 ^ 64

unfoldable pub effective_ahead : ℕ → ℕ → ℕ → ℕ
effective_ahead prefetch_ahead capacity range =
    min_word (min_word prefetch_ahead (sub_word capacity 1)) (sub_word range 1)

unfoldable pub frame_index : ℕ → ℕ → ℕ → ℕ → ℕ
frame_index first range current off =
    (first + (sub_word current first + off) % 2 ^ 64 % range) % 2 ^ 64

-- The loop of `prefetch_from`: the offsets from `off` on, `n` of them.
unfoldable pub frames_from : ℕ → ℕ → ℕ → ℕ → ℕ → List ℕ
frames_from first range current off zero = []
frames_from first range current off (suc n) =
    frame_index first range current off ∷ frames_from first range current (suc off) n

unfoldable pub prefetched : ℕ → ℕ → ℕ → ℕ → ℕ → ℕ → List ℕ
prefetched first end_index file_count prefetch_ahead capacity current =
    let range = loop_range first (last_of_loop end_index file_count) in
    frames_from first range current 1 (effective_ahead prefetch_ahead capacity range)
