-- ===== src/ApiServer/Sets.antt =====
-- sets.String of apimachinery, as the validations use it: sets.NewString, Has and the number of members.
use hohapiserver.Base.{
  ◌≤◌, String, eq_iff, arith, ◌≡◌, refl, ◌↔◌, Bool, true, not, ◌&&◌, if◌then◌else◌, List, [], ◌∷◌,
  length, elem,
}

-- The members of sets.NewString(…), each once.
unfoldable pub set_of : List String → List String
set_of [] = []
set_of (x ∷ xs) = let s = set_of xs in if elem x s then s else x ∷ s

-- No name stands twice.
unfoldable pub distinct : List String → Bool
distinct [] = true
distinct (x ∷ xs) = not (elem x xs) && distinct xs

pub elem-set_of : (y : String) (xs : List String) → elem y (set_of xs) ≡ elem y xs
unfolding set_of elem
elem-set_of y [] = refl
elem-set_of y (x ∷ xs) = ground (arith, eq_iff y x, elem-set_of y xs, elem-set_of x xs)

length-set_of : (xs : List String) → length (set_of xs) ≤ length xs
unfolding set_of
length-set_of [] = omega arith
length-set_of (x ∷ xs) = ground (arith, length-set_of xs)

-- The set has as many members as the list has items exactly when none of them stands twice.
pub length-set_of_iff : (xs : List String) → (length (set_of xs) ≡ length xs) ↔ (distinct xs ≡ true)
unfolding set_of distinct
length-set_of_iff [] = (λ h. refl, λ h. refl)
length-set_of_iff (x ∷ xs) =
    ground (arith, length-set_of_iff xs, length-set_of xs, elem-set_of x xs)
