-- ===== src/Tests/Registry.antt =====
-- A registry over a configuration of two numbers: a rate that can be set, and a count that cannot.
use pointcaster.Prelude.{
  ℕ, ◌≡◌, String, true, false, none, some, List, [], ◌∷◌, refl, not, ◌&&◌, if◌then◌else◌,
}
use pointcaster.Registry.{
  Field, Subscription, Registry, registers, subscribes, starts_with, empty_registry, find_field,
  insert_or_assign, erase_fields, register_field, unregister, clear, matching, call_all, notify,
  set, is_readonly, get, snapshot, on_change, step, run,
}
use pointcaster.Registry.Fields.{is_some, set-returns}

abbrev World : Type 0
World = ℕ × ℕ × List String

abbrev rate : Field World ℕ
rate = record { get = λ w. w.0; set = some (λ v w. (v, w.1, w.2)) }

abbrev count : Field World ℕ
count = record { get = λ w. w.1; set = none }

abbrev hear : String → World → World
hear path w = (w.0, w.1, path ∷ w.2)

abbrev listener : Subscription World
listener = record { id = 1; prefix = "session/"; callback = hear }

abbrev registry : Registry World ℕ
registry = record {
  fields = ("session/rate", rate) ∷ ("session/count", count) ∷ [];
  subs = listener ∷ [];
  next_id = 2;
}

built :
    run empty_registry (
      registers "session/rate" rate
      ∷ registers "session/count" count
      ∷ subscribes "session/" hear
      ∷ [])
    ≡ registry
unfolding run step register_field insert_or_assign on_change empty_registry
built = refl

cleared : (clear (unregister "session/c" registry)).fields ≡ []
unfolding clear unregister
cleared = refl

erased : erase_fields "session/c" registry.fields ≡ ("session/rate", rate) ∷ []
unfolding erase_fields starts_with
erased = refl

set_notifies : set registry "session/rate" 60 (30, 4, []) ≡ (true, (60, 4, "session/rate" ∷ []))
unfolding set find_field notify matching call_all starts_with
set_notifies = refl

read_only : set registry "session/count" 5 (30, 4, []) ≡ (false, (30, 4, []))
unfolding set find_field
read_only = refl

pictured : snapshot registry ("session/count" ∷ "gone" ∷ []) (30, 4, []) ≡ ("session/count", 4) ∷ []
unfolding snapshot find_field
pictured = refl

set-returns_example :
    ((set registry "session/count" 5 (30, 4, [])).0 ≡ (
      is_some (get registry "session/count" (30, 4, []))
      && not (is_readonly registry "session/count")))
    × ((if (set registry "session/count" 5 (30, 4, [])).0
          then (30, 4, [])
          else (set registry "session/count" 5 (30, 4, [])).1)
        ≡ (30, 4, []))
set-returns_example = set-returns registry "session/count" 5 (30, 4, [])
