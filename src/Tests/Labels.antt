-- ===== src/Tests/Labels.antt =====
-- Labels numbered by marks.
use pointcaster.Prelude.{ℕ, zero, suc, ◌+◌, ◌≡◌, String, some, [], ◌∷◌, arith, refl, ap}
use pointcaster.DeviceTree.{contains}
use pointcaster.Labels.{label_from, next_available_label}

-- A prefix after as many marks as the number says.
abbrev pub marked : String → ℕ → String
marked prefix zero = prefix
marked prefix (suc n) = String.◌∷◌ "|" (marked prefix n)

letters : String → ℕ
letters String.[] = 0
letters (String.◌∷◌ c s) = suc (letters s)

letters-marked : (prefix : String) (n : ℕ) → letters (marked prefix n) ≡ n + letters prefix
unfolding letters
letters-marked prefix zero = omega arith
letters-marked prefix (suc n) = ground (arith, letters-marked prefix n)

pub marked_injective : (m n : ℕ) → marked "group" m ≡ marked "group" n → m ≡ n
marked_injective m n e =
    omega (arith, letters-marked "group" m, letters-marked "group" n, ap letters e)

third : next_available_label marked 3 "group" ("|group" ∷ "||group" ∷ []) ≡ some "|||group"
unfolding next_available_label label_from contains
third = refl
