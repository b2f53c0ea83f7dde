-- ===== src/PointStreamer/Passed.antt =====
-- One address through a pass of src/point_streamer/point_streamer.cc.
use pointcaster.Prelude.{
  ℕ, ◌≡◌, ◌≢◌, ◌⊎◌, inl, inr, Bool, true, false, Option, none, some, List, [], ◌∷◌, ◌==◌, not, ◌&&◌,
  ◌||◌, if◌then◌else◌, arith, refl, Bool-cases, or_else, ap, ◌∙◌, ==_iff,
}
use pointcaster.Wire.{Bytes, framed}
use pointcaster.Wire.Maps.{find, chosen}
use pointcaster.PointStreamer.{
  Clouds, Streaming, Settings, any_topic, publishing, shown_cloud, is_none, same_cloud, dirty_cloud,
  frame_of, message_of, sendable,
}
use pointcaster.PointStreamer.Entries.{is_there}

module _ (clouds : Clouds) where
  -- The message that the last one of an address is, before and after a pass.
  abbrev pub seen : (Bytes → Option Bytes) → List (Bytes × Bytes) → Bytes → Option Bytes
  seen shown sent address = or_else (find sent address) (shown address)

  -- The cloud that a pass streams at an address.
  abbrev pub streamed : Settings → Streaming → Bytes → Option ℕ
  streamed c s a = shown_cloud clouds (find (publishing clouds c s) a)

-- Under one configuration of the codec.
module _ (clouds : Clouds) (codec : ℕ) where
  open clouds use {cloud_empty, stopped_cloud}

  abbrev compress : ℕ → Bytes
  compress cloud = clouds.compress codec cloud

  -- What the caches of an address say, and what its clients see: a cached cloud is not empty, is
  -- cached as a frame, and is the last one sent.
  abbrev pub IsCached : Option ℕ → Option Bytes → Option Bytes → Bytes → Type 0
  IsCached none frame shown address = frame ≡ none
  IsCached (some cloud) frame shown address =
      (cloud_empty cloud ≡ false)
      × (frame ≡ some (framed address (compress cloud)))
      × (shown ≡ some (framed address (compress cloud)))

  -- What the clients of an address see after a pass, by the cloud streamed and the one streamed
  -- before.
  abbrev pub expected : Option ℕ → Option ℕ → Option Bytes → Bytes → Option Bytes
  expected (some cloud) before shown a = some (framed a (compress cloud))
  expected none (some cloud) shown a = some (framed a (compress stopped_cloud))
  expected none none shown a = shown

  -- The entry of an address in the caches and in the messages, from the entries before the pass.
  abbrev pub changed_at : Option ℕ → Option (Option ℕ) → Option ℕ
  changed_at last none = none
  changed_at last (some none) = none
  changed_at last (some (some cloud)) =
      if cloud_empty cloud && not (cloud == stopped_cloud)
      then none
      else if same_cloud clouds last cloud
      then none
      else some cloud

  abbrev pub frame_at : Option ℕ → Bytes → Option Bytes
  frame_at none a = none
  frame_at (some cloud) a = some (framed a (compress cloud))

  abbrev pub sent_at : Bool → Option (Option ℕ) → Option Bytes → Option Bytes
  sent_at sends none frame = none
  sent_at sends (some cloud) frame = if sends then sendable clouds frame else none

  -- A message that is due in any case carries the cloud streamed.
  abbrev pub Resent : Option ℕ → Bool → Option Bytes → Bytes → Type 0
  Resent none again message a = Unit {0}
  Resent (some cloud) false message a = Unit {0}
  Resent (some cloud) true message a = message ≡ some (framed a (compress cloud))

  sendable-framed : (a p : Bytes) → sendable clouds (some (framed a p)) ≡ some (framed a p)
  unfolding framed
  sendable-framed [] p = refl
  sendable-framed (x ∷ a) p = refl

  -- A cached cloud gives way to the empty one.
  changed_at-stopped :
      (l : ℕ)
      → cloud_empty stopped_cloud ≡ true
      → cloud_empty l ≡ false
      → changed_at (some l) (some (some stopped_cloud)) ≡ some stopped_cloud
  unfolding same_cloud
  changed_at-stopped l e f = ground (
    arith,
    e,
    (==_iff stopped_cloud stopped_cloud).1 refl,
    λ (q : (l == stopped_cloud) ≡ true). ap cloud_empty ((==_iff l stopped_cloud).0 q),
    f,
  )

  -- The message of an address whose cloud changed, of one that did not, and of one without a frame.
  message-changed :
      (again : Bool) (x : Option ℕ) (ch : Option ℕ) (frame shown : Option Bytes) (a : Bytes) (q : ℕ)
      → ch ≡ some q
      → or_else (sent_at (again || is_there ch) (some x) (or_else (frame_at ch a) frame)) shown
        ≡ some (framed a (compress q))
  message-changed true x ch frame shown a q h = rw (h, sendable-framed a (compress q)) refl
  message-changed false x ch frame shown a q h = rw (h, sendable-framed a (compress q)) refl

  message-kept :
      (again : Bool) (x : Option ℕ) (ch : Option ℕ) (frame shown : Option Bytes) (a : Bytes) (q : ℕ)
      → ch ≡ none
      → frame ≡ some (framed a (compress q))
      → shown ≡ some (framed a (compress q))
      → or_else (sent_at (again || is_there ch) (some x) (or_else (frame_at ch a) frame)) shown
        ≡ some (framed a (compress q))
  message-kept true x ch frame shown a q h k l = rw (h, k, sendable-framed a (compress q)) refl
  message-kept false x ch frame shown a q h k l = rw (h, l) refl

  message-none :
      (again : Bool) (x : Option ℕ) (ch : Option ℕ) (frame shown : Option Bytes) (a : Bytes)
      → ch ≡ none
      → frame ≡ none
      → or_else (sent_at (again || is_there ch) (some x) (or_else (frame_at ch a) frame)) shown
        ≡ shown
  message-none true x ch frame shown a h k = rw (h, k) refl
  message-none false x ch frame shown a h k = rw h refl

  -- One address after a pass: its stream with the stopped ones replaced, the cloud to serialise, the
  -- cached cloud and frame, what the clients see, whether a message is due in any case, whether the
  -- stream stopped, and the cloud streamed.
  unfoldable pub Passed :
      Bytes
      → Option (Option ℕ)
      → Option ℕ
      → Option ℕ
      → Option Bytes
      → Option Bytes
      → Bool
      → Bool
      → Option ℕ
      → Type 0
  Passed a stream ch last frame shown again stopped target =
      let frame' = or_else (frame_at ch a) frame in
      let shown' = or_else (sent_at (again || is_there ch) stream frame') shown in
      let last' = if stopped then none else or_else ch last in
      (last' ≡ target)
      × (shown' ≡ expected target last shown a)
      × IsCached last' (if stopped then none else frame') shown' a
      × Resent target again (sent_at (again || is_there ch) stream frame') a

  pub Passed-same_as :
      (a : Bytes) {stream stream' : Option (Option ℕ)} {ch ch' : Option ℕ} (last : Option ℕ)
      (frame shown : Option Bytes) (again : Bool) {gone gone' : Bool} {target target' : Option ℕ}
      → stream ≡ stream'
      → ch ≡ ch'
      → gone ≡ gone'
      → target ≡ target'
      → Passed a stream' ch' last frame shown again gone' target'
      → Passed a stream ch last frame shown again gone target
  Passed-same_as a last frame shown again p q r t h = rw (p, q, r, t) h

  Passed-stopped :
      (a : Bytes) (ch : Option ℕ) (l : ℕ) (frame shown : Option Bytes) (again : Bool)
      → ch ≡ some stopped_cloud
      → Passed a (some (some stopped_cloud)) ch (some l) frame shown again true none
  unfolding Passed
  Passed-stopped a ch l frame shown again h =
      (refl, message-changed again (some stopped_cloud) ch frame shown a stopped_cloud h, refl, tt)

  Resent-new :
      (again : Bool) (a : Bytes) (p : ℕ) (frame : Option Bytes)
      → Resent
          (some p)
          again
          (sent_at (again || true) (some (some p)) (or_else (frame_at (some p) a) frame))
          a
  Resent-new false a p frame = tt
  Resent-new true a p frame = sendable-framed a (compress p)

  Resent-same :
      (again : Bool) (a : Bytes) (l : ℕ) (x : Option ℕ) (frame : Option Bytes)
      → frame ≡ some (framed a (compress l))
      → Resent (some l) again (sent_at (again || false) (some x) (or_else none frame)) a
  Resent-same false a l x frame g = tt
  Resent-same true a l x frame g = rw g (sendable-framed a (compress l))

  Passed-new :
      (a : Bytes) (p : ℕ) (last : Option ℕ) (frame shown : Option Bytes) (again : Bool)
      → cloud_empty p ≡ false
      → Passed a (some (some p)) (some p) last frame shown again false (some p)
  unfolding Passed
  Passed-new a p last frame shown again k =
      let m = message-changed again (some p) (some p) frame shown a p refl in
      (refl, m, (k, refl, m), Resent-new again a p frame)

  Passed-absent :
      (a : Bytes) (frame shown : Option Bytes) (again : Bool)
      → frame ≡ none
      → Passed a none none none frame shown again false none
  unfolding Passed
  Passed-absent a frame shown again v = (refl, refl, v, tt)

  Passed-none :
      (a : Bytes) (x : Option ℕ) (frame shown : Option Bytes) (again : Bool)
      → frame ≡ none
      → Passed a (some x) none none frame shown again false none
  unfolding Passed
  Passed-none a x frame shown again v =
      (refl, message-none again x none frame shown a refl v, v, tt)

  Passed-same :
      (a : Bytes) (l : ℕ) (x : Option ℕ) (frame shown : Option Bytes) (again : Bool)
      → IsCached (some l) frame shown a
      → Passed a (some x) none (some l) frame shown again false (some l)
  unfolding Passed
  Passed-same a l x frame shown again (f, g, w) =
      let m = message-kept again x none frame shown a l refl g w in
      (refl, m, (f, g, m), Resent-same again a l x frame g)

  pub one_address :
      (a : Bytes) (stream : Option (Option ℕ)) (last : Option ℕ) (frame shown : Option Bytes)
      (again : Bool)
      → cloud_empty stopped_cloud ≡ true
      → stream ≢ some (some stopped_cloud)
      → IsCached last frame shown a
      → let target = shown_cloud clouds stream in
        let stopped = is_there last && is_none clouds target in
        let stream' = if stopped then some (some stopped_cloud) else stream in
        Passed a stream' (changed_at last stream') last frame shown again stopped target
  unfolding same_cloud
  one_address a none none frame shown again e n v = Passed-absent a frame shown again v
  one_address a none (some l) frame shown again e n (f, g, w) =
      Passed-stopped a _ l frame shown again (changed_at-stopped l e f)
  one_address a (some none) none frame shown again e n v = Passed-none a none frame shown again v
  one_address a (some none) (some l) frame shown again e n (f, g, w) =
      Passed-stopped a _ l frame shown again (changed_at-stopped l e f)
  one_address a (some (some p)) none frame shown again e n v = elim (Bool-cases (cloud_empty p)) [
    | inl k ↦
        let other : (p == stopped_cloud) ≡ false = elim (Bool-cases (p == stopped_cloud)) [
          | inl q ↦ absurd (n (ap (λ z. some (some z)) ((==_iff p stopped_cloud).0 q)))
          | inr q ↦ q
        ] in
        Passed-same_as a none frame shown again refl (ground (arith, k, other)) refl
          (ground (arith, k)) (Passed-none a (some p) frame shown again v)
    | inr k ↦
        Passed-same_as a none frame shown again refl (ground (arith, k)) refl (ground (arith, k))
          (Passed-new a p none frame shown again k)
  ]
  one_address a (some (some p)) (some l) frame shown again e n (f, g, w) =
      elim (Bool-cases (cloud_empty p)) [
        | inl k ↦
            Passed-same_as a {stream' = some (some stopped_cloud)} (some l) frame shown again
              (ground (arith, k)) refl (ground (arith, k)) (ground (arith, k))
              (Passed-stopped a _ l frame shown again (
                ap (changed_at (some l)) {y = some (some stopped_cloud)} (ground (arith, k))
                ∙ changed_at-stopped l e f))
        | inr k ↦ elim (Bool-cases (l == p)) [
          | inl q ↦
              Passed-same_as a {stream' = some (some p)} (some l) frame shown again
                (ground (arith, k)) (ground (arith, k, q)) (ground (arith, k))
                (ground (arith, k, (==_iff l p).0 q))
                (Passed-same a l (some p) frame shown again (f, g, w))
          | inr q ↦
              Passed-same_as a {stream' = some (some p)} (some l) frame shown again
                (ground (arith, k)) (ground (arith, k, q)) (ground (arith, k)) (ground (arith, k))
                (Passed-new a p (some l) frame shown again k)
        ]
      ]

  pub chosen-dirty_cloud :
      (last : List (Bytes × ℕ)) (a : Bytes) (o : Option (Option ℕ))
      → chosen (dirty_cloud clouds last) a o ≡ changed_at (find last a) o
  chosen-dirty_cloud last a none = refl
  chosen-dirty_cloud last a (some none) = refl
  chosen-dirty_cloud last a (some (some p)) = refl

  pub chosen-frame_of :
      (a : Bytes) (o : Option ℕ) → chosen (frame_of clouds codec) a o ≡ frame_at o a
  chosen-frame_of a none = refl
  chosen-frame_of a (some p) = refl

  either-order :
      (x y : Bool) (o : Option ℕ) → (x || not (is_none clouds o) || y) ≡ ((x || y) || is_there o)
  either-order true y o = refl
  either-order false true none = refl
  either-order false true (some p) = refl
  either-order false false none = refl
  either-order false false (some p) = refl

  pub allowed :
      (f : Bytes → Option ℕ → Option (Option ℕ)) (a : Bytes) (o : Option (Option ℕ)) {x : Option ℕ}
      → chosen f a o ≡ some x
      → ((cloud : Option ℕ) → (f a cloud ≡ none) ⊎ (f a cloud ≡ some cloud))
      → o ≡ some x
  allowed f a none h g = cc
  allowed f a (some y) h g = elim (g y) [
    | inl q ↦ absurd (ground (arith, q, h))
    | inr q ↦ ground (arith, q, h)
  ]

  pub chosen-message_of :
      (every : Bool) (changed : List (Bytes × ℕ)) (new : List Bytes) (frames : List (Bytes × Bytes))
      (a : Bytes) (o : Option (Option ℕ))
      → chosen (message_of clouds every changed new frames) a o
        ≡ sent_at ((every || any_topic new a) || is_there (find changed a)) o (find frames a)
  chosen-message_of every changed new frames a none = refl
  chosen-message_of every changed new frames a (some x) =
      ap (λ b. if b then sendable clouds (find frames a) else none)
        (either-order every (any_topic new a) (find changed a))

  pub IsCached-same :
      (a : Bytes) {l l' : Option ℕ} {f f' w w' : Option Bytes}
      → l ≡ l'
      → f ≡ f'
      → w ≡ w'
      → IsCached l' f' w' a
      → IsCached l f w a
  IsCached-same a p q r h = rw (p, q, r) h
