-- ===== src/Tests/Workspace.antt =====
-- Operators and devices brought in line with configurations.
use mathlib.Core.Option.{some-injective}
use pointcaster.Prelude.{
  ◌⊎◌, inl, inr, ap, sym, ℕ, zero, suc, ◌≡◌, String, Bool, true, Option, none, some, List, [], ◌∷◌,
  str_eq, arith, refl, not,
}
use pointcaster.Workspace.{
  Config, Instance, sync_operators, sync_devices, operator_plugin, device_plugin, need_rebuild,
  start_sync, sync_all, sync_one, sync_plugin, index_of, try_emplace, erase_index, index_from,
  created, reused, replaced, instantiated, update_config, leftover, slot,
}
use pointcaster.Workspace.Reconciled.{reconciled, sync_operators-reconciled}
use pointcaster.Workspace.Rebuild.{AreObjects, need_rebuild-always}

abbrev knows : String → Bool
knows name = not (str_eq name "Orbbec")

abbrev made : String → String → ℕ → Config ℕ
made id name v = record { id = id; plugin_name = name; settings = v }

abbrev object : ℕ → String → Config ℕ → Instance ℕ
object k name c = record { instance_id = k; plugin = name; config = c }

-- Two operators, a null pointer between them.
abbrev old : List (Option (Instance ℕ))
old =
    some (object 4 "Crop" (made "a" "Crop" 1))
    ∷ none
    ∷ some (object 6 "Rake" (made "b" "Rake" 2))
    ∷ []

-- `b` first, `a` of another plugin, a new one and one that is not loaded.
abbrev wanted : List (Config ℕ)
wanted = made "b" "Rake" 5 ∷ made "a" "Noise" 6 ∷ made "c" "Crop" 7 ∷ made "d" "Orbbec" 8 ∷ []

operators_left :
    (sync_operators knows wanted old 9).results
    ≡ object 6 "Rake" (made "b" "Rake" 5)
      ∷ object 9 "Noise" (made "a" "Noise" 6)
      ∷ object 10 "Crop" (made "c" "Crop" 7)
      ∷ []
unfolding sync_operators start_sync sync_all sync_one sync_plugin operator_plugin index_of
    try_emplace erase_index index_from created reused replaced instantiated update_config
operators_left = refl

sync_operators-reconciled_example :
    (sync_operators knows wanted old 9).results ≡ reconciled (operator_plugin knows) old [] 9 wanted
sync_operators-reconciled_example = sync_operators-reconciled knows wanted old 9

abbrev two_devices : List (Config ℕ)
two_devices = made "a" "Ply" 1 ∷ made "b" "Ply" 2 ∷ []

-- The placeholder of a camera, and what the next run with the same configuration makes of it.
abbrev camera : Config ℕ
camera = made "cam" "Orbbec" 3

placeholder_replaced :
    let s = sync_devices knows (camera ∷ []) (some (object 2 "NullDevice" camera) ∷ []) 9 in
    (s.results ≡ object 9 "NullDevice" camera ∷ [])
    × (s.disposed ≡ object 2 "NullDevice" camera ∷ [])
unfolding sync_devices start_sync sync_all sync_one sync_plugin device_plugin index_of try_emplace
    erase_index index_from created reused replaced instantiated update_config leftover
placeholder_replaced = (refl, refl)

-- Once the plugin is loaded the placeholder stays.
placeholder_stays :
    (sync_devices (λ name. true) (camera ∷ []) (some (object 2 "NullDevice" camera) ∷ []) 9).results
    ≡ object 2 "NullDevice" camera ∷ []
unfolding sync_devices start_sync sync_all sync_one sync_plugin device_plugin index_of try_emplace
    erase_index index_from created reused replaced instantiated update_config leftover
placeholder_stays = refl

places :
    (i : ℕ) (o : Instance ℕ)
    → slot old i ≡ some o
    → ((i ≡ 0) × (o.instance_id ≡ 4)) ⊎ ((i ≡ 2) × (o.instance_id ≡ 6))
places zero o t = inl (refl, ap (λ x. x.instance_id) (sym (some-injective _ o t)))
places (suc zero) o t = ground (arith, t)
places (suc (suc zero)) o t = inr (refl, ap (λ x. x.instance_id) (sym (some-injective _ o t)))
places (suc (suc (suc i))) o t = ground (arith, t)

old-AreObjects : AreObjects old 9
old-AreObjects i j o o' t t' = ground (arith, places i o t, places j o' t')

need_rebuild-always_example : need_rebuild knows true (made "b" "Rake" 2 ∷ []) old 9 ≡ true
unfolding sync_operators start_sync sync_all sync_one sync_plugin operator_plugin index_of
    try_emplace erase_index index_from created reused replaced instantiated update_config
need_rebuild-always_example =
    need_rebuild-always knows true (made "b" "Rake" 2 ∷ []) old 9 old-AreObjects (omega arith)
