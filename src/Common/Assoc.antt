-- ===== src/Common/Assoc.antt =====
-- Go's `map[string]V` as a list of keys and values, in the order in which `range` visits them.
use mathlib.Core.Path.{◌≡◌, refl}
use mathlib.Core.Option.{Option, none, some}
use mathlib.Core.List.{List, [], ◌∷◌}
use Prim.Native.String.{String}
use native.Mathlib.Omega.{arith}
use smart_scanner.Common.Tests.{if◌then◌else◌, str_eq, str_eq_iff}

abbrev pub look_up {ℓ} : {A : Type ℓ} → String → List (String × A) → Option A
look_up k [] = none
look_up k ((l, v) ∷ m) = let rest = look_up k m in if str_eq k l then some v else rest

-- `m[k] = v`.
abbrev pub insert {ℓ} : {A : Type ℓ} → String → A → List (String × A) → List (String × A)
insert k v [] = (k, v) ∷ []
insert k v ((l, w) ∷ m) =
    let rest = insert k v m in if str_eq k l then (l, v) ∷ m else (l, w) ∷ rest

-- `delete(m, k)`.
abbrev pub remove {ℓ} : {A : Type ℓ} → String → List (String × A) → List (String × A)
remove k [] = []
remove k ((l, w) ∷ m) = let rest = remove k m in if str_eq k l then rest else (l, w) ∷ rest

abbrev pub values {ℓ} : {A : Type ℓ} → List (String × A) → List A
values [] = []
values ((k, v) ∷ m) = v ∷ values m

-- What is found after an insertion.
pub look_up-insert {ℓ} :
    {A : Type ℓ} (j k : String) (v : A) (m : List (String × A))
    → look_up j (insert k v m) ≡ (if str_eq j k then some v else look_up j m)
look_up-insert j k v [] = refl
look_up-insert j k v ((l, w) ∷ m) =
    ground (arith, look_up-insert j k v m, str_eq_iff k l, str_eq_iff j k, str_eq_iff j l)

-- What is found after a deletion.
pub look_up-remove {ℓ} :
    {A : Type ℓ} (j k : String) (m : List (String × A))
    → look_up j (remove k m) ≡ (if str_eq j k then none else look_up j m)
look_up-remove j k [] = ground arith
look_up-remove j k ((l, w) ∷ m) =
    ground (arith, look_up-remove j k m, str_eq_iff k l, str_eq_iff j k, str_eq_iff j l)
