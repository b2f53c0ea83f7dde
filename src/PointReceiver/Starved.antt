-- ===== src/PointReceiver/Starved.antt =====
-- Two streams of src/pointreceiver/pointreceiver.cc, and a caller that takes one cloud after each
-- pass in which both streams send one.
use pointcaster.Prelude.{
  ℕ, zero, suc, ◌<◌, ◌≡◌, inl, inr, true, false, Option, none, some, List, [], ◌∷◌, if◌then◌else◌,
  replicate, arith, refl, Bool-cases, ◌∙◌,
}
use pointcaster.Wire.{Bytes, bytes_eq, bytes_eq_iff, bytes_eq_refl}
use pointcaster.Wire.Maps.{find}
use pointcaster.PointReceiver.{Context, Answer, create_context}
use pointcaster.PointReceiver.Frames.{receive_cloud, dequeue_point_cloud}
use pointcaster.PointReceiver.Mailbox.{
  undelivered, arrival, IsValid, receive_cloud-undelivered, receive_cloud-IsValid,
  receive_cloud-arrival, dequeue_point_cloud-Dequeued,
}

module _ {C : Type 0} (F : Type 0) (a b : Bytes) (x y : C) (capacity : ℕ) where
  -- Both streams send, the one of `a` first.
  abbrev pub both_sent : Context C F → Context C F
  both_sent c = receive_cloud b y (receive_cloud a x c)

  -- The clouds that the caller gets in so many rounds.
  unfoldable pub served : ℕ → Context C F → Option (List C)
  served zero c = some []
  served (suc n) c = elim (dequeue_point_cloud (some capacity) true (both_sent c)) [
    | none ↦ none
    | some w ↦ elim w.cloud [
      | none ↦ none
      | some cloud ↦ elim (served n w.context) [ none ↦ none | some rest ↦ some (cloud ∷ rest) ]
    ]
  ]

  OnlyWaits : Context C F → Type 0
  OnlyWaits c = (q : Bytes) → bytes_eq b q ≡ false → undelivered c q ≡ none

  both_sent-undelivered :
      (c : Context C F) (q : Bytes)
      → undelivered (both_sent c) q
        ≡ (if bytes_eq b q then some y else if bytes_eq a q then some x else undelivered c q)
  both_sent-undelivered c q =
      receive_cloud-undelivered (receive_cloud a x c) b q y
      ∙ rw (receive_cloud-undelivered c a q x) refl

  -- The cloud of `b` arrives after the one of `a`.
  both_sent-arrival :
      (c : Context C F) → bytes_eq a b ≡ false → arrival (both_sent c) a < arrival (both_sent c) b
  both_sent-arrival c d =
      let c1 = receive_cloud a x c in
      let (at_a, t) = receive_cloud-arrival c1 b a y in
      let (at_b, _) = receive_cloud-arrival c1 b b y in
      let (first, s) = receive_cloud-arrival c a a x in
      ground (
        arith,
        d,
        at_a,
        at_b,
        first,
        s,
        bytes_eq_refl a,
        bytes_eq_refl b,
        bytes_eq_iff a b,
        bytes_eq_iff b a,
      )

  round :
      (c : Context C F)
      → bytes_eq a b ≡ false
      → 0 < capacity
      → IsValid c
      → OnlyWaits c
      → (w : Answer C F) × (dequeue_point_cloud (some capacity) true (both_sent c) ≡ some w)
        × (w.cloud ≡ some x)
        × IsValid w.context
        × OnlyWaits w.context
  unfolding OnlyWaits
  round c d h v only =
      let v' = receive_cloud-IsValid (receive_cloud a x c) b y (receive_cloud-IsValid c a x v) in
      elim (dequeue_point_cloud-Dequeued (both_sent c) capacity v' h) [
        | inl (e, gone) ↦
            absurd (ground (arith, gone b, both_sent-undelivered c b, bytes_eq_refl b))
        | inr (r, cloud, c', e, waits, after, least, w) ↦ elim (Bool-cases (bytes_eq b r)) [
          | inl k ↦ absurd (
              ground (
                arith,
                both_sent-arrival c d,
                (bytes_eq_iff b r).0 k,
                least a x,
                both_sent-undelivered c a,
                bytes_eq_refl a,
                bytes_eq_iff b a,
                d,
              ))
          | inr k ↦ elim (Bool-cases (bytes_eq a r)) [
            | inl l ↦ (
              _,
              e,
              ground (arith, k, l, waits, both_sent-undelivered c r),
              w,
              λ q m.
                  after q
                  ∙ ground (
                    arith,
                    m,
                    l,
                    bytes_eq_iff a r,
                    bytes_eq_iff r q,
                    bytes_eq_iff a q,
                    only q m,
                    both_sent-undelivered c q,
                  ),
            )
            | inr l ↦ absurd (ground (arith, k, l, waits, both_sent-undelivered c r, only r k))
          ]
        ]
      ]

  served-first :
      (n : ℕ) (c : Context C F)
      → bytes_eq a b ≡ false
      → 0 < capacity
      → IsValid c
      → OnlyWaits c
      → served n c ≡ some (replicate n x)
  unfolding served
  served-first zero c d h v only = refl
  served-first (suc n) c d h v only =
      let (w, e, f, v', only') = round c d h v only in
      ground (arith, e, f, served-first n w.context d h v' only')

  -- However many rounds there are, a caller that takes one cloud after each gets only those of the
  -- stream that sends first, when the two addresses differ.
  pub served-starves :
      (n : ℕ) → bytes_eq a b ≡ false → 0 < capacity → served n create_context ≡ some (replicate n x)
  unfolding create_context OnlyWaits find
  served-starves n d h = served-first n create_context d h tt (λ q k. refl)
