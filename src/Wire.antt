-- ===== src/Wire.antt =====
-- Addresses and frames as bytes: the framing of src/point_streamer/point_streamer.cc and its reading
-- in src/pointreceiver/pointreceiver.cc. A `std::string` is the list of its bytes.
pub mod Maps
pub mod Framing
pub mod Buffer
use pointcaster.Prelude.{
  ℕ, zero, suc, ◌≡◌, ◌↔◌, ◌==◌, Bool, true, false, Option, none, some, List, [], ◌∷◌, ◌++◌, ◌&&◌,
  if◌then◌else◌, ==_iff, refl, arith, ap, Bool-cases, inl, inr,
}

abbrev pub Bytes : Type 0
Bytes = List ℕ

unfoldable pub bytes_eq : Bytes → Bytes → Bool
bytes_eq [] [] = true
bytes_eq [] (y ∷ ys) = false
bytes_eq (x ∷ xs) [] = false
bytes_eq (x ∷ xs) (y ∷ ys) = (x == y) && bytes_eq xs ys

pub bytes_eq_refl : (a : Bytes) → bytes_eq a a ≡ true
unfolding bytes_eq
bytes_eq_refl [] = refl
bytes_eq_refl (x ∷ xs) = ground (arith, bytes_eq_refl xs)

pub eq_of_bytes_eq : (a b : Bytes) → bytes_eq a b ≡ true → a ≡ b
unfolding bytes_eq
eq_of_bytes_eq [] [] h = refl
eq_of_bytes_eq [] (y ∷ ys) h = cc
eq_of_bytes_eq (x ∷ xs) [] h = cc
eq_of_bytes_eq (x ∷ xs) (y ∷ ys) h = ground (arith, h, eq_of_bytes_eq xs ys)

pub bytes_eq_iff : (a b : Bytes) → (bytes_eq a b ≡ true) ↔ (a ≡ b)
bytes_eq_iff a b = (eq_of_bytes_eq a b, λ p. rw (← p) (bytes_eq_refl a))

abbrev pub is_nil : Bytes → Bool
is_nil [] = true
is_nil (x ∷ xs) = false

unfoldable pub starts_with : Bytes → Bytes → Bool
starts_with xs [] = true
starts_with [] (y ∷ ys) = false
starts_with (x ∷ xs) (y ∷ ys) = (x == y) && starts_with xs ys

-- The address, a zero byte and the payload.
unfoldable pub framed : Bytes → Bytes → Bytes
framed address payload = address ++ 0 ∷ payload

-- The bytes before and after the first zero byte.
unfoldable pub separated : Bytes → Option (Bytes × Bytes)
separated [] = none
separated (x ∷ xs) =
    let rest : Option (Bytes × Bytes) = elim (separated xs) [
      | none ↦ none
      | some (address, payload) ↦ some (x ∷ address, payload)
    ] in
    if x == 0 then some ([], xs) else rest

-- What a socket subscribes to for an address.
unfoldable pub subscription : Bytes → Bytes
subscription address = if is_nil address then address else address ++ 0 ∷ []

-- The address of a message of a subscriber, after its first byte.
unfoldable pub subscribed_topic : Bytes → Bytes
subscribed_topic [] = []
subscribed_topic (x ∷ []) = if x == 0 then [] else x ∷ []
subscribed_topic (x ∷ y ∷ ys) = x ∷ subscribed_topic (y ∷ ys)

unfoldable pub has_nul : Bytes → Bool
has_nul [] = false
has_nul (x ∷ xs) = if x == 0 then true else has_nul xs
