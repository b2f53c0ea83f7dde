-- ===== src/Workspace/Placeholder.antt =====
-- What `sync_devices` of src/workspace/workspace.cc does for a device whose plugin is not loaded.
use pointcaster.Prelude.{
  ℕ, ◌≡◌, ◌≤◌, String, Bool, true, false, Option, none, some, List, [], ◌∷◌, str_eq, ◌⊎◌,
}
use pointcaster.Workspace.{Instance}

module _ {V : Type 0} where
  -- No device holds a configuration of the placeholder itself.
  abbrev pub HoldsNoNull : List (Option (Instance V)) → Type 0
  HoldsNoNull [] = Unit {0}
  HoldsNoNull (none ∷ slots) = HoldsNoNull slots
  HoldsNoNull (some o ∷ slots) =
      (str_eq o.config.plugin_name "NullDevice" ≡ false) × HoldsNoNull slots

  abbrev pub IsHeld : Instance V → List (Option (Instance V)) → Type 0
  IsHeld p [] = ⊥
  IsHeld p (none ∷ slots) = IsHeld p slots
  IsHeld p (some q ∷ slots) = (q ≡ p) ⊎ IsHeld p slots

  -- What becomes of a device's instance among those of `old`, with new ones numbered from `n` on.
  pub data LeftDevice (is_loaded : String → Bool) (old : List (Option (Instance V))) (n : ℕ)
      (o : Instance V) : Type 0 where
    new_placeholder :
        is_loaded o.config.plugin_name ≡ false
        → o.plugin ≡ "NullDevice"
        → n ≤ o.instance_id
        → LeftDevice is_loaded old n o
    new_device :
        is_loaded o.config.plugin_name ≡ true
        → o.plugin ≡ o.config.plugin_name
        → n ≤ o.instance_id
        → LeftDevice is_loaded old n o
    -- The object of a device of the same id and plugin's name, whichever class it has.
    kept_device :
        (p : Instance V)
        → is_loaded o.config.plugin_name ≡ true
        → IsHeld p old
        → p.config.id ≡ o.config.id
        → p.config.plugin_name ≡ o.config.plugin_name
        → (o.instance_id ≡ p.instance_id) × (o.plugin ≡ p.plugin)
        → LeftDevice is_loaded old n o

  abbrev pub AllLeft : (String → Bool) → List (Option (Instance V)) → ℕ → List (Instance V) → Type 0
  AllLeft is_loaded old n [] = Unit {0}
  AllLeft is_loaded old n (o ∷ os) = LeftDevice is_loaded old n o × AllLeft is_loaded old n os
