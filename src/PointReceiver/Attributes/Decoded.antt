-- ===== src/PointReceiver/Attributes/Decoded.antt =====
-- What `pointreceiver_attribute_copy_floats` of src/pointreceiver/pointreceiver.cc writes.
use pointcaster.Prelude.{
  ℕ, zero, suc, ◌+◌, ◌*◌, ◌%◌, ◌^◌, ◌==◌, ◌<◌, ltb, ◌≡◌, true, some, List, [], ◌∷◌, ◌++◌,
  if◌then◌else◌, ◌&&◌, length, arith, refl, ap, ◌∙◌, sym, Bool-cases, inl, inr, length-append,
  ==_iff,
}
use pointcaster.PointCloud.{Floats, to_value, same_encoding, default_encoding}
use pointcaster.PointCloud.Readings.{same_encoding-equal}
use pointcaster.PointReceiver.{ok, invalid_argument}
use pointcaster.PointReceiver.Attributes.{
  AttributeType, attribute_float32, attribute_uint8, attribute_uint16, attribute_uint32,
  attribute_int8, attribute_int16, attribute_int32, attribute_other, bytes_of, is_known, is_float32,
  Descriptor, component_values, copy_as, attribute_copy_floats,
}

module _ {F : Type 0} where
  length-component_values :
      (value : ℕ → F) (width start n : ℕ) → length (component_values value width start n) ≡ n
  unfolding component_values
  length-component_values value width start zero = refl
  length-component_values value width start (suc n) =
      ap suc (length-component_values value width (start + width) n)

  length-copy_as :
      (value : ℕ → F) (width c stride start n : ℕ)
      → length (copy_as value width c stride start n) ≡ n * c
  unfolding copy_as
  length-copy_as value width c stride start zero = omega arith
  length-copy_as value width c stride start (suc n) =
      length-append (component_values value width start c)
        (copy_as value width c stride (start + stride) n)
      ∙ omega (
        arith,
        length-component_values value width start c,
        length-copy_as value width c stride (start + stride) n,
      )

  component_values-append :
      (value : ℕ → F) (start m n : ℕ)
      → component_values value 4 start (m + n)
        ≡ component_values value 4 start m ++ component_values value 4 (start + 4 * m) n
  unfolding component_values
  component_values-append value start zero n =
      ap (component_values value 4 start) {x = 0 + n} {y = n} (omega arith)
      ∙ ap (λ o. component_values value 4 o n) {x = start} {y = start + 4 * 0} (omega arith)
  component_values-append value start (suc m) n =
      ap (component_values value 4 start) {x = suc m + n} {y = suc (m + n)} (omega arith)
      ∙ ap (λ vs. value start ∷ vs)
          (component_values-append value (start + 4) m n
            ∙ ap (λ o. component_values value 4 (start + 4) m ++ component_values value 4 o n)
                {x = start + 4 + 4 * m} {y = start + 4 * suc m} (omega arith))

  -- Elements without gaps are one run of components.
  copy_as-packed :
      (value : ℕ → F) (c start n : ℕ)
      → copy_as value 4 c (4 * c) start n ≡ component_values value 4 start (n * c)
  unfolding copy_as component_values
  copy_as-packed value c start zero =
      ap (component_values value 4 start) {x = 0} {y = 0 * c} (omega arith)
  copy_as-packed value c start (suc n) =
      ap (λ vs. component_values value 4 start c ++ vs) (copy_as-packed value c (start + 4 * c) n)
      ∙ sym (component_values-append value start c (n * c))
      ∙ ap (component_values value 4 start) {x = c + n * c} {y = suc n * c} (omega arith)

  component_values-ext :
      (u v : ℕ → F) (same : (o : ℕ) → u o ≡ v o) (width start n : ℕ)
      → component_values u width start n ≡ component_values v width start n
  unfolding component_values
  component_values-ext u v same width start zero = refl
  component_values-ext u v same width start (suc n) =
      rw (same start, component_values-ext u v same width (start + width) n) refl

module _ {F : Type 0} (floats : Floats F) where
  -- The values of an attribute's components, in order.
  abbrev pub decoded_values : Descriptor F → (AttributeType → ℕ → F) → List F
  decoded_values d value =
      copy_as (λ start. to_value floats d.encoding (value d.element_type start))
        (bytes_of d.element_type) d.component_count d.stride 0 d.element_count

  packed-decoded :
      (d : Descriptor F) (value : AttributeType → ℕ → F)
      → ((v : F) → to_value floats (default_encoding floats) v ≡ v)
      → d.element_type ≡ attribute_float32
      → d.encoding ≡ default_encoding floats
      → d.stride ≡ 4 * d.component_count
      → component_values (value attribute_float32) 4 0 (d.element_count * d.component_count)
        ≡ decoded_values d value
  packed-decoded d value reads t e k =
      component_values-ext _ _ (λ o. sym (reads (value attribute_float32 o))) 4 0
        (d.element_count * d.component_count)
      ∙ sym (
          copy_as-packed
            (λ o. to_value floats (default_encoding floats) (value attribute_float32 o))
            d.component_count 0 d.element_count)
      ∙ rw (t, e, k) refl

  is_float32_eq : (t : AttributeType) → is_float32 t ≡ true → t ≡ attribute_float32
  is_float32_eq attribute_float32 h = refl
  is_float32_eq attribute_uint8 h = cc
  is_float32_eq attribute_uint16 h = cc
  is_float32_eq attribute_uint32 h = cc
  is_float32_eq attribute_int8 h = cc
  is_float32_eq attribute_int16 h = cc
  is_float32_eq attribute_int32 h = cc
  is_float32_eq attribute_other h = cc

  -- Let a float encoded by step 1 and offset 0 read as itself and floats that compare equal be equal.
  -- For an attribute with data and a known type, whose values are fewer than 2^64, the copy
  -- writes the decoded values of all components in order, one for each component of each element,
  -- also on the path that copies the bytes; when they do not fit it refuses and writes nothing.
  pub attribute_copy_floats-decodes :
      (d : Descriptor F) (value : AttributeType → ℕ → F) (out_capacity : ℕ)
      → ((v : F) → to_value floats (default_encoding floats) v ≡ v)
      → ((u v : F) → floats.eq u v ≡ true → u ≡ v)
      → d.contents ≡ some value
      → is_known d.element_type ≡ true
      → d.element_count * d.component_count < 2 ^ 64
      → (attribute_copy_floats floats (some d) (some out_capacity) ≡ (
          if ltb out_capacity (d.element_count * d.component_count)
          then (invalid_argument, [])
          else (ok, decoded_values d value)))
        × (length (decoded_values d value) ≡ d.element_count * d.component_count)
  unfolding attribute_copy_floats
  attribute_copy_floats-decodes d value out_capacity reads eq_same c k h =
      let m : d.element_count * d.component_count % 2 ^ 64 ≡ d.element_count * d.component_count =
        omega (arith, h) in
      (
        elim (Bool-cases (
            is_float32 d.element_type
            && same_encoding floats d.encoding (default_encoding floats)
            && (d.stride == 4 * d.component_count))) [
              | inl e ↦
                  let t = is_float32_eq d.element_type (ground (arith, e)) in
                  let s =
                    same_encoding-equal floats reads eq_same d.encoding (default_encoding floats)
                      (ground (arith, e)) in
                  let p =
                    packed-decoded d value reads t s
                      ((==_iff d.stride (4 * d.component_count)).0 (ground (arith, e))) in
                  ground (arith, c, m, e, p)
              | inr e ↦ ground (arith, c, m, e, k)
            ],
        length-copy_as _ (bytes_of d.element_type) d.component_count d.stride 0 d.element_count,
      )
