-- ===== src/PointCloud/Elements.antt =====
-- What the elements of an attribute read as after `operator+=` of src/core/point_cloud.cc.
use pointcaster.Prelude.{
  ℕ, ◌≡◌, String, true, false, none, some, List, [], ◌++◌, length, replicate, arith, refl, ◌∙◌,
  length-map,
}
use pointcaster.Prelude.Int.{pos}
use pointcaster.PointCloud.{
  Floats, Storage, of_positions, of_floats, of_integers, RawType, same_type, storage_size,
  AttributeEncoding, holds_scalar, same_storage, to_value, default_float, default_integer,
  read_storage, zero_float,
}
use pointcaster.PointCloud.Append.{grown_storage, adopted}
use pointcaster.PointCloud.Vectors.{
  extended-none, extended-some, defaulted-same, map-append, map-padded, map-preceded,
}

module _ {F : Type 0} (floats : Floats F) where
  -- `n` points without the attribute, read as if they had it.
  unfoldable pub missing_storage : ℕ → String → AttributeEncoding F → Storage F → List F
  missing_storage n name e (of_positions _) = []
  missing_storage n name e (of_floats _) =
      replicate n (to_value floats e (default_float floats name))
  missing_storage n name e (of_integers t _) =
      replicate n (to_value floats e (floats.of_int (default_integer floats t name e)))

  pub read-adopted :
      (n m : ℕ) (name : String) (e : AttributeEncoding F) (s : Storage F)
      → storage_size s ≡ m
      → read_storage floats e (adopted floats n m name e s)
        ≡ missing_storage n name e s ++ read_storage floats e s
  unfolding missing_storage read_storage adopted
  read-adopted n m name e (of_positions values) h = refl
  read-adopted n m name e (of_floats values) h =
      rw (defaulted-same floats n m (default_float floats name) values h)
        (map-preceded _ n _ values)
  read-adopted n m name e (of_integers t values) h =
      rw (defaulted-same floats n m (default_integer floats t name e) values h)
        (map-preceded _ n _ values)

  -- Growing by defaults.
  pub read-grown_storage-none :
      (n m : ℕ) (name : String) (e : AttributeEncoding F) (s : Storage F)
      → storage_size s ≡ n
      → read_storage floats e (grown_storage floats n m name e none s)
        ≡ read_storage floats e s ++ missing_storage m name e s
  unfolding missing_storage read_storage grown_storage
  read-grown_storage-none n m name e (of_positions values) h = refl
  read-grown_storage-none n m name e (of_floats values) h =
      rw (extended-none n m (zero_float floats) (default_float floats name) values h)
        (map-padded _ values m _)
  read-grown_storage-none n m name e (of_integers t values) h =
      rw (extended-none n m (pos 0) (default_integer floats t name e) values h)
        (map-padded _ values m _)

  pub same_type_comm : (s t : RawType) → same_type s t ≡ same_type t s
  same_type_comm s t = ground arith

  -- Growing by the elements of the same storage.
  pub read-grown_storage-some :
      (n m : ℕ) (name : String) (e : AttributeEncoding F) (s r : Storage F)
      → storage_size s ≡ n
      → storage_size r ≡ m
      → same_storage r s ≡ true
      → read_storage floats e (grown_storage floats n m name e (some r) s)
        ≡ read_storage floats e s ++ read_storage floats e r
  unfolding same_storage read_storage grown_storage
  read-grown_storage-some n m name e (of_positions xs) (of_positions ys) h k same = refl
  read-grown_storage-some n m name e (of_floats xs) (of_floats ys) h k same =
      rw (extended-some n m (zero_float floats) (default_float floats name) ys xs h k)
        (map-append _ xs ys)
  read-grown_storage-some n m name e (of_integers t xs) (of_integers s ys) h k same =
      rw
        (
          same_type_comm t s ∙ same,
          extended-some n m (pos 0) (default_integer floats t name e) ys xs h k,
        )
        (map-append _ xs ys)
  read-grown_storage-some n m name e (of_positions xs) (of_floats ys) h k same =
      ground (arith, same)
  read-grown_storage-some n m name e (of_positions xs) (of_integers s ys) h k same =
      ground (arith, same)
  read-grown_storage-some n m name e (of_floats xs) (of_positions ys) h k same =
      ground (arith, same)
  read-grown_storage-some n m name e (of_floats xs) (of_integers s ys) h k same =
      ground (arith, same)
  read-grown_storage-some n m name e (of_integers t xs) (of_positions ys) h k same =
      ground (arith, same)
  read-grown_storage-some n m name e (of_integers t xs) (of_floats ys) h k same =
      ground (arith, same)

  pub length-read_storage :
      (e : AttributeEncoding F) (s : Storage F)
      → holds_scalar s ≡ true
      → length (read_storage floats e s) ≡ storage_size s
  unfolding holds_scalar read_storage
  length-read_storage e (of_positions values) h = ground (arith, h)
  length-read_storage e (of_floats values) h = length-map values _
  length-read_storage e (of_integers t values) h = length-map values _

  pub missing_storage-other :
      (n : ℕ) (name : String) (e : AttributeEncoding F) (s : Storage F)
      → holds_scalar s ≡ false
      → (read_storage floats e s ≡ []) × (missing_storage n name e s ≡ [])
  unfolding holds_scalar read_storage missing_storage
  missing_storage-other n name e (of_positions values) h = (refl, refl)
  missing_storage-other n name e (of_floats values) h = ground (arith, h)
  missing_storage-other n name e (of_integers t values) h = ground (arith, h)

  pub holds_scalar-same :
      (r s : Storage F) → same_storage r s ≡ true → holds_scalar r ≡ holds_scalar s
  unfolding holds_scalar same_storage
  holds_scalar-same r s h = ground (arith, h)

  pub ap2_encoding : {a b : AttributeEncoding F} → a.step ≡ b.step → a.offset ≡ b.offset → a ≡ b
  ap2_encoding p q = λ i. record { step = p i; offset = q i }
