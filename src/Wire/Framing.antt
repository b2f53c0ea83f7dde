-- ===== src/Wire/Framing.antt =====
-- A frame that the point streamer sends, and what a receiver reads of it.
use pointcaster.Prelude.{◌≡◌, false, some, [], ◌∷◌, ◌++◌, ◌||◌, arith, refl}
use pointcaster.Wire.{
  Bytes, bytes_eq, is_nil, starts_with, framed, separated, subscription, has_nul,
}

starts_with-framed :
    (a b payload : Bytes)
    → has_nul a ≡ false
    → has_nul b ≡ false
    → starts_with (a ++ 0 ∷ payload) (b ++ 0 ∷ []) ≡ bytes_eq a b
unfolding starts_with has_nul bytes_eq
starts_with-framed [] [] p h k = refl
starts_with-framed [] (y ∷ b) p h k = ground (arith, k)
starts_with-framed (x ∷ a) [] p h k = ground (arith, h)
starts_with-framed (x ∷ a) (y ∷ b) p h k = ground (arith, h, k, starts_with-framed a b p)

separated-framed :
    (a payload : Bytes) → has_nul a ≡ false → separated (framed a payload) ≡ some (a, payload)
unfolding separated framed has_nul
separated-framed [] p h = refl
separated-framed (x ∷ a) p h = ground (arith, h, separated-framed a p)

-- A frame starts with the subscription of an address exactly when the address is empty or that of the
-- frame, and a receiver reads the frame's address and payload back, if neither address has a zero byte.
pub framed-delivered :
    (a b payload : Bytes)
    → has_nul a ≡ false
    → has_nul b ≡ false
    → (starts_with (framed a payload) (subscription b) ≡ is_nil b || bytes_eq a b)
      × (separated (framed a payload) ≡ some (a, payload))
unfolding framed subscription starts_with
framed-delivered a [] p h k = (refl, separated-framed a p h)
framed-delivered a (y ∷ b) p h k = (starts_with-framed a (y ∷ b) p h k, separated-framed a p h)
