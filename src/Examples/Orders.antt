-- ===== src/Examples/Orders.antt =====
-- Concrete instances of what Go leaves open: the order of insertion, and an insertion sort.
use starlight.Prelude.{
  ℕ, ◌≤◌, refl, inl, inr, List, [], ◌∷◌, arith, leb, nat_comparable, text_comparable, if◌then◌else◌,
  Bool-cases, All, Apart, MapOrder, Sorter, All-perm, All-imp,
}
use mathlib.Core.List.{Permᴰ}
use mathlib.Core.List.Permᴰ

unfoldable pub in_order : {A : Type 0} → MapOrder A
in_order = record { visit = λ l. l; visit_perm = λ l. Permᴰ.refl l }

module _ {A : Type 0} (key : A → ℕ) where
  place_in : A → List A → List A
  place_in a [] = a ∷ []
  place_in a (x ∷ xs) =
      let rest = place_in a xs in if leb (key a) (key x) then a ∷ x ∷ xs else x ∷ rest

  pub sorted : List A → List A
  unfolding place_in
  sorted [] = []
  sorted (x ∷ xs) = place_in x (sorted xs)

  place_in-perm : (a : A) (l : List A) → Permᴰ (a ∷ l) (place_in a l)
  unfolding place_in
  place_in-perm a [] = Permᴰ.refl (a ∷ [])
  place_in-perm a (x ∷ xs) = elim (Bool-cases (leb (key a) (key x))) [
    | inl p ↦ rw p (Permᴰ.refl (a ∷ x ∷ xs))
    | inr p ↦ rw p (Permᴰ.trans (Permᴰ.swap refl refl) (Permᴰ.cons refl (place_in-perm a xs)))
  ]

  pub sorted-perm : (l : List A) → Permᴰ l (sorted l)
  unfolding sorted
  sorted-perm [] = Permᴰ.nil
  sorted-perm (x ∷ xs) =
      Permᴰ.trans (Permᴰ.cons refl (sorted-perm xs)) (place_in-perm x (sorted xs))

  abbrev Ascends : List A → Type 0
  Ascends = Apart (λ a b. key a ≤ key b)

  above :
      (n : ℕ) (a : A) (l : List A)
      → n ≤ key a
      → All (λ x. n ≤ key x) l
      → All (λ x. n ≤ key x) (place_in a l)
  above n a l p h = All-perm (λ x. n ≤ key x) (place_in-perm a l) (p, h)

  place_in-Ascends : (a : A) (l : List A) → Ascends l → Ascends (place_in a l)
  unfolding place_in
  place_in-Ascends a [] h = (tt, tt)
  place_in-Ascends a (x ∷ xs) h = elim (Bool-cases (leb (key a) (key x))) [
    | inl p ↦
        let le : key a ≤ key x = ground (arith, p) in
        rw p ((le, All-imp (λ y q. omega (arith, le, q)) xs h.0), h)
    | inr p ↦
        let le : key x ≤ key a = ground (arith, p) in
        rw p (above (key x) a xs le h.0, place_in-Ascends a xs h.1)
  ]

  pub sorted-Ascends : (l : List A) → Ascends (sorted l)
  unfolding sorted
  sorted-Ascends [] = tt
  sorted-Ascends (x ∷ xs) = place_in-Ascends x (sorted xs) (sorted-Ascends xs)

  unfoldable pub by_insertion : Sorter A key
  unfolding sorted
  by_insertion = record { sort = sorted; sort_perm = sorted-perm; sort_ascends = sorted-Ascends }
