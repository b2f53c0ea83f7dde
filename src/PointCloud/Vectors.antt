-- ===== src/PointCloud/Vectors.antt =====
-- Vectors resized and extended as `operator+=` of src/core/point_cloud.cc does.
use pointcaster.Prelude.{
  ℕ, ◌+◌, ◌-◌, ◌≤◌, ◌≡◌, ◌==◌, Bool, true, Option, none, some, List, [], ◌∷◌, ◌++◌, map, length,
  take, replicate, arith, refl, ap, zero, suc, length-append, length-replicate, length-take, ◌&&◌,
}
use pointcaster.PointCloud.{Floats, resized}
use pointcaster.PointCloud.Append.{extended, defaulted}

pub length-resized : {A : Type 0} (n : ℕ) (v : A) (xs : List A) → length (resized n v xs) ≡ n
length-resized n v xs = grind (arith, length-append, length-take, length-replicate)

pub length-extended :
    {A : Type 0} (n m : ℕ) (initial missing : A) (appended : Option (List A)) (values : List A)
    → length (extended n m initial missing appended values) ≡ n + m
unfolding extended
length-extended n m initial missing none values = length-resized (n + m) missing _
length-extended n m initial missing (some more) values = ground (
  arith,
  length-append (resized n initial values) more,
  length-resized n initial values,
  length-resized (n + m) missing (resized n initial values),
)

module _ {A : Type 0} where
  pub take_all : (k : ℕ) (xs : List A) → length xs ≤ k → take k xs ≡ xs
  take_all zero [] h = refl
  take_all (suc k) [] h = refl
  take_all zero (x ∷ xs) h = elim h [ ]
  take_all (suc k) (x ∷ xs) h = ap (x ∷◌) (take_all k xs (omega (arith, h)))

  pub append_nil : (xs : List A) → xs ++ [] ≡ xs
  append_nil [] = refl
  append_nil (x ∷ xs) = ap (x ∷◌) (append_nil xs)

  pub resized-more :
      (n m : ℕ) (v : A) (xs : List A) → length xs ≡ n → resized (n + m) v xs ≡ xs ++ replicate m v
  resized-more n m v xs h =
      let left : n + m - length xs ≡ m = omega (arith, h) in
      rw (take_all (n + m) xs (omega (arith, h)), left) refl

  pub resized-same : (n : ℕ) (v : A) (xs : List A) → length xs ≡ n → resized n v xs ≡ xs
  resized-same n v xs h =
      let left : n - length xs ≡ 0 = omega (arith, h) in
      rw (take_all n xs (omega (arith, h)), left) (append_nil xs)

  pub extended-none :
      (n m : ℕ) (z v : A) (xs : List A)
      → length xs ≡ n
      → extended n m z v none xs ≡ xs ++ replicate m v
  unfolding extended
  extended-none n m z v xs h = rw (resized-same n z xs h) (resized-more n m v xs h)

  pub extended-some :
      (n m : ℕ) (z v : A) (ys xs : List A)
      → length xs ≡ n
      → length ys ≡ m
      → extended n m z v (some ys) xs ≡ xs ++ ys
  unfolding extended
  extended-some n m z v ys xs h k =
      let e : (length ys == m) ≡ true = ground (arith, k) in rw (e, resized-same n z xs h) refl

  pub defaulted-same :
      {F : Type 0} (floats : Floats F) (n m : ℕ) (v : A) (xs : List A)
      → length xs ≡ m
      → defaulted floats n m v xs ≡ replicate n v ++ xs
  defaulted-same floats n m v xs h =
      resized-same (n + m) v (replicate n v ++ xs)
        (omega (arith, length-append (replicate n v) xs, length-replicate n v, h))

module _ {A B : Type 0} (f : A → B) where
  pub map-append : (xs ys : List A) → map f (xs ++ ys) ≡ map f xs ++ map f ys
  map-append [] ys = refl
  map-append (x ∷ xs) ys = ap (f x ∷◌) (map-append xs ys)

  pub map-replicate : (n : ℕ) (a : A) → map f (replicate n a) ≡ replicate n (f a)
  map-replicate zero a = refl
  map-replicate (suc n) a = ap (f a ∷◌) (map-replicate n a)

  pub map-padded :
      (xs : List A) (n : ℕ) (a : A) → map f (xs ++ replicate n a) ≡ map f xs ++ replicate n (f a)
  map-padded xs n a = rw (map-append xs (replicate n a), map-replicate n a) refl

  pub map-preceded :
      (n : ℕ) (a : A) (xs : List A) → map f (replicate n a ++ xs) ≡ replicate n (f a) ++ map f xs
  map-preceded n a xs = rw (map-append (replicate n a) xs, map-replicate n a) refl

pub &&_split : {a b : Bool} → a && b ≡ true → (a ≡ true) × (b ≡ true)
&&_split h = ground (arith, h)
