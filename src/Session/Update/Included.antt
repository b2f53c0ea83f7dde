-- ===== src/Session/Update/Included.antt =====
-- The devices that `update_loop` of src/session/session.cc takes for its session.
use pointcaster.Prelude.{ℕ, ◌≡◌, String, true, false, Option, none, some, List, [], ◌∷◌, refl}
use pointcaster.DeviceTree.{Config}
use pointcaster.DeviceTree.Walks.{effective_session_enabled}
use pointcaster.Session.Update.{DeviceView, included}

module _ {F T : Type 0} (f : ℕ) (c : Config T) (disabled : List String) where
  -- The devices that are there, are no discovery instance and are enabled in the session, in order.
  pub data AreIncluded : List (Option (DeviceView F)) → List (DeviceView F) → Type 0 where
    no_device : AreIncluded [] []
    null_device :
        {devices : List (Option (DeviceView F))} {ds : List (DeviceView F)}
        → AreIncluded devices ds
        → AreIncluded (none ∷ devices) ds
    discovery_device :
        (d : DeviceView F) {devices : List (Option (DeviceView F))} {ds : List (DeviceView F)}
        → d.is_discovery_instance ≡ true
        → AreIncluded devices ds
        → AreIncluded (some d ∷ devices) ds
    excluded_device :
        (d : DeviceView F) {devices : List (Option (DeviceView F))} {ds : List (DeviceView F)}
        → d.is_discovery_instance ≡ false
        → effective_session_enabled f c disabled d.id ≡ some false
        → AreIncluded devices ds
        → AreIncluded (some d ∷ devices) ds
    included_device :
        (d : DeviceView F) {devices : List (Option (DeviceView F))} {ds : List (DeviceView F)}
        → d.is_discovery_instance ≡ false
        → effective_session_enabled f c disabled d.id ≡ some true
        → AreIncluded devices ds
        → AreIncluded (some d ∷ devices) (d ∷ ds)

  pub included-AreIncluded :
      {devices : List (Option (DeviceView F))} {ds : List (DeviceView F)}
      → AreIncluded devices ds
      → included f c disabled devices ≡ some ds
  unfolding included
  included-AreIncluded no_device = refl
  included-AreIncluded (null_device rest) = included-AreIncluded rest
  included-AreIncluded (discovery_device d e rest) = rw (e, included-AreIncluded rest) refl
  included-AreIncluded (excluded_device d e h rest) = rw (e, h, included-AreIncluded rest) refl
  included-AreIncluded (included_device d e h rest) = simp (e, h, included-AreIncluded rest)
