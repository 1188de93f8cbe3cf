-- ===== src/Util/Slices.antt =====
-- pkg/util/util.go: the slices of texts.
use smart_scanner.Common.{
  ℕ, zero, suc, ◌≤◌, ◌<◌, String, ◌≡◌, refl, ap, ◌∙◌, inl, inr, false, not, ◌&&◌, List, [], ◌∷◌,
  ◌++◌, if◌then◌else◌, str_eq_iff, str_eq_refl, length, length-take, length-drop, take-drop, take,
  drop, All, arith, Bool-cases,
}
use smart_scanner.Util.{contains_string}

-- The loop of `RemoveDuplicateStrings`, where the map has the keys `seen`.
unfoldable pub remove_from : (seen : List String) → List String → List String
remove_from seen [] = []
remove_from seen (item ∷ slice) =
    let skipped = remove_from seen slice in
    let kept = remove_from (item ∷ seen) slice in
    if contains_string seen item then skipped else item ∷ kept

unfoldable pub remove_duplicate_strings : List String → List String
remove_duplicate_strings slice = remove_from [] slice

-- The loop of `ChunkStringSlice`; `fuel` is its rounds at most.
unfoldable pub chunks_from : (fuel chunk_size : ℕ) → List String → List (List String)
chunks_from zero chunk_size slice = []
chunks_from (suc fuel) chunk_size [] = []
chunks_from (suc fuel) chunk_size (item ∷ slice) =
    take chunk_size (item ∷ slice) ∷ chunks_from fuel chunk_size (drop chunk_size (item ∷ slice))

-- With a chunk size of 0 the code's loop does not end.
unfoldable pub chunk_string_slice : (chunk_size : ℕ) → List String → List (List String)
chunk_string_slice chunk_size slice = chunks_from (length slice) chunk_size slice

abbrev pub Distinct : List String → Type 0
Distinct [] = Unit {0}
Distinct (x ∷ xs) = (contains_string xs x ≡ false) × Distinct xs

remove_from-contains :
    (seen slice : List String) (y : String)
    → contains_string (remove_from seen slice) y
      ≡ (contains_string slice y && not (contains_string seen y))
unfolding remove_from contains_string
remove_from-contains seen [] y = ground arith
remove_from-contains seen (x ∷ xs) y =
    ground
      (arith, remove_from-contains seen xs y, remove_from-contains (x ∷ seen) xs y, str_eq_iff x y)

remove_from-Distinct : (seen slice : List String) → Distinct (remove_from seen slice)
unfolding remove_from contains_string
remove_from-Distinct seen [] = tt
remove_from-Distinct seen (x ∷ xs) = elim (Bool-cases (contains_string seen x)) [
  | inl there ↦ rw there (remove_from-Distinct seen xs)
  | inr fresh ↦ rw fresh (
    (ground (arith, remove_from-contains (x ∷ seen) xs x, str_eq_refl x)),
    remove_from-Distinct (x ∷ seen) xs,
  )
]

-- Without its duplicates a slice has the same texts, each once.
pub remove_duplicate_strings-Distinct :
    (slice : List String)
    → Distinct (remove_duplicate_strings slice)
      × ((y : String)
          → contains_string (remove_duplicate_strings slice) y ≡ contains_string slice y)
unfolding remove_duplicate_strings contains_string
remove_duplicate_strings-Distinct slice =
    (remove_from-Distinct [] slice, λ y. ground (arith, remove_from-contains [] slice y))

abbrev pub joined : List (List String) → List String
joined [] = []
joined (c ∷ cs) = c ++ joined cs

chunks_from-joined :
    (fuel chunk_size : ℕ) (slice : List String)
    → 0 < chunk_size
    → length slice ≤ fuel
    → (joined (chunks_from fuel chunk_size slice) ≡ slice)
      × All (λ c. length c ≤ chunk_size) (chunks_from fuel chunk_size slice)
unfolding chunks_from
chunks_from-joined zero k [] some_size enough = (refl, tt)
chunks_from-joined zero k (x ∷ xs) some_size enough = absurd (ground arith)
chunks_from-joined (suc fuel) k [] some_size enough = (refl, tt)
chunks_from-joined (suc fuel) k (x ∷ xs) some_size enough =
    let rest = drop k (x ∷ xs) in
    let shorter : length rest ≤ fuel = omega (arith, length-drop k (x ∷ xs)) in
    let (whole, bounded) = chunks_from-joined fuel k rest some_size shorter in
    (
      ap (λ l. take k (x ∷ xs) ++ l) whole ∙ take-drop k (x ∷ xs),
      (omega (arith, length-take k (x ∷ xs)), bounded),
    )

-- The chunks of a positive size, one after the other, are the slice, and none is longer than this size.
pub chunk_string_slice-joined :
    (chunk_size : ℕ) (slice : List String)
    → 0 < chunk_size
    → (joined (chunk_string_slice chunk_size slice) ≡ slice)
      × All (λ c. length c ≤ chunk_size) (chunk_string_slice chunk_size slice)
unfolding chunk_string_slice
chunk_string_slice-joined chunk_size slice some_size =
    chunks_from-joined (length slice) chunk_size slice some_size (ground arith)
