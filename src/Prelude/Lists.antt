-- ===== src/Prelude/Lists.antt =====
-- Lists measured and indexed by native numbers, predicates over them, and writes through pointers.
use Prim.Native.Nat.{ℕ, zero, suc, ◌+◌, ◌≤◌}
use mathlib.Core.Path.{◌≡◌, refl, sym, ap, ◌∙◌}
use mathlib.Core.Bool.{Bool, false, ◌||◌}
use mathlib.Core.List.{List, [], ◌∷◌, ◌++◌}
use mathlib.Core.Option
use mathlib.Core.Option.{Option, none, some}
use native.Mathlib.Omega.{arith}
use starlight.Prelude.Tests.{if◌then◌else◌, Comparable, ◌==◌, nat_comparable}

module _ {ℓ} {A : Type ℓ} where
  abbrev pub length : List A → ℕ
  length [] = 0
  length (x ∷ xs) = suc (length xs)

  abbrev pub get_elem? : List A → ℕ → Option A
  get_elem? [] i = none
  get_elem? (x ∷ xs) zero = some x
  get_elem? (x ∷ xs) (suc i) = get_elem? xs i

  abbrev pub get_or : List A → ℕ → A → A
  get_or [] i d = d
  get_or (x ∷ xs) zero d = x
  get_or (x ∷ xs) (suc i) d = get_or xs i d

  abbrev pub take : ℕ → List A → List A
  take zero xs = []
  take (suc n) [] = []
  take (suc n) (x ∷ xs) = x ∷ take n xs

  abbrev pub drop : ℕ → List A → List A
  drop zero xs = xs
  drop (suc n) [] = []
  drop (suc n) (x ∷ xs) = drop n xs

  -- The elements that pass the test, in order.
  abbrev pub keep : (A → Bool) → List A → List A
  keep p [] = []
  keep p (x ∷ xs) = let rest = keep p xs in if p x then x ∷ rest else rest

  -- `*p = f(*p)` for the object at position `i`; a position out of range is no pointer.
  abbrev pub modify : List A → ℕ → (A → A) → List A
  modify [] i f = []
  modify (x ∷ xs) zero f = f x ∷ xs
  modify (x ∷ xs) (suc i) f = x ∷ modify xs i f

  -- The same write through each pointer of a list.
  abbrev pub write_all : (A → A) → List ℕ → List A → List A
  write_all f [] h = h
  write_all f (i ∷ is) h = write_all f is (modify h i f)

module _ {ℓ} {A : Type ℓ} where
  pub length-append : (xs ys : List A) → length (xs ++ ys) ≡ length xs + length ys
  length-append [] ys = omega arith
  length-append (x ∷ xs) ys = omega (arith, length-append xs ys)

  pub length-take_le : (n : ℕ) (xs : List A) → n ≤ length xs → length (take n xs) ≡ n
  length-take_le zero xs h = refl
  length-take_le (suc n) [] h = omega arith
  length-take_le (suc n) (x ∷ xs) h = omega (arith, length-take_le n xs)

  pub take-length-append : (xs ys : List A) → take (length xs) (xs ++ ys) ≡ xs
  take-length-append [] ys = refl
  take-length-append (x ∷ xs) ys = ap (λ l. x ∷ l) (take-length-append xs ys)

  pub drop-length-append : (xs ys : List A) → drop (length xs) (xs ++ ys) ≡ ys
  drop-length-append [] ys = refl
  drop-length-append (x ∷ xs) ys = drop-length-append xs ys

module _ {ℓ} {A : Type ℓ} where
  pub take_exactly : (n : ℕ) (xs ys : List A) → length xs ≡ n → take n (xs ++ ys) ≡ xs
  take_exactly n xs ys h = ap (λ m. take m (xs ++ ys)) (sym h) ∙ take-length-append xs ys

  pub drop_exactly : (n : ℕ) (xs ys : List A) → length xs ≡ n → drop n (xs ++ ys) ≡ ys
  drop_exactly n xs ys h = ap (λ m. drop m (xs ++ ys)) (sym h) ∙ drop-length-append xs ys

-- A predicate on every element; it computes to a tuple.
module _ {ℓ κ} {A : Type ℓ} (P : A → Type κ) where
  abbrev pub All : List A → Type κ
  All [] = Unit
  All (x ∷ xs) = P x × All xs

  pub All-append : (xs ys : List A) → All xs → All ys → All (xs ++ ys)
  All-append [] ys _ hy = hy
  All-append (x ∷ xs) ys (px, hx) hy = (px, All-append xs ys hx hy)

-- `Apart R xs`: `R` holds of every two elements at different positions, the earlier one first.
abbrev pub Apart {ℓ κ} : {A : Type ℓ} (R : A → A → Type κ) → List A → Type κ
Apart R [] = Unit
Apart R (x ∷ xs) = All (R x) xs × Apart R xs

module _ {ℓ} {A : Type ℓ} ⦃e : Comparable A⦄ where
  abbrev pub contains : List A → A → Bool
  contains [] a = false
  contains (x ∷ xs) a = x == a || contains xs a

abbrev pub sum : List ℕ → ℕ
sum [] = 0
sum (x ∷ xs) = x + sum xs

module _ {ℓ κ} {A : Type ℓ} (P : A → Type κ) (f : A → A) (good : (a : A) → P a → P (f a)) where
  pub All-modify : (h : List A) (i : ℕ) → All P h → All P (modify h i f)
  All-modify [] i p = p
  All-modify (x ∷ xs) zero p = (good x p.0, p.1)
  All-modify (x ∷ xs) (suc i) p = (p.0, All-modify xs i p.1)

  pub All-write_all : (is : List ℕ) (h : List A) → All P h → All P (write_all f is h)
  All-write_all [] h p = p
  All-write_all (i ∷ is) h p = All-write_all is (modify h i f) (All-modify h i p)

pub write_all-append {ℓ} :
    {A : Type ℓ} (f : A → A) (is js : List ℕ) (h : List A)
    → write_all f (is ++ js) h ≡ write_all f js (write_all f is h)
write_all-append f [] js h = refl
write_all-append f (i ∷ is) js h = write_all-append f is js (modify h i f)

-- What a pointer reads after a write through other pointers.
module _ {ℓ} {A : Type ℓ} (f : A → A) where
  pub get_elem?-modify :
      (h : List A) (j i : ℕ)
      → get_elem? (modify h j f) i
        ≡ (if j == i then Option.map f (get_elem? h i) else get_elem? h i)
  get_elem?-modify [] j i = ground arith
  get_elem?-modify (x ∷ xs) zero zero = ground arith
  get_elem?-modify (x ∷ xs) zero (suc i) = ground arith
  get_elem?-modify (x ∷ xs) (suc j) zero = ground arith
  get_elem?-modify (x ∷ xs) (suc j) (suc i) = ground (arith, get_elem?-modify xs j i)

  module _ (idem : (a : A) → f (f a) ≡ f a) where
    map_idem : (o : Option A) → Option.map f (Option.map f o) ≡ Option.map f o
    map_idem none = refl
    map_idem (some a) = ap some (idem a)

    pub get_elem?-write_all :
        (is : List ℕ) (h : List A) (i : ℕ)
        → get_elem? (write_all f is h) i
          ≡ (if contains is i then Option.map f (get_elem? h i) else get_elem? h i)
    get_elem?-write_all [] h i = refl
    get_elem?-write_all (j ∷ is) h i = ground (
      arith,
      get_elem?-write_all is (modify h j f) i,
      get_elem?-modify h j i,
      map_idem (get_elem? h i),
    )

  -- A field that the write leaves alone reads as before.
  module _ {κ} {B : Type κ} (g : A → B) (same : (a : A) → g (f a) ≡ g a) (d : A) where
    field-modify : (h : List A) (j i : ℕ) → g (get_or (modify h j f) i d) ≡ g (get_or h i d)
    field-modify [] j i = refl
    field-modify (x ∷ xs) zero zero = same x
    field-modify (x ∷ xs) zero (suc i) = refl
    field-modify (x ∷ xs) (suc j) zero = refl
    field-modify (x ∷ xs) (suc j) (suc i) = field-modify xs j i

    pub field-write_all :
        (is : List ℕ) (h : List A) (i : ℕ) → g (get_or (write_all f is h) i d) ≡ g (get_or h i d)
    field-write_all [] h i = refl
    field-write_all (j ∷ is) h i = field-write_all is (modify h j f) i ∙ field-modify h j i

pub get_or-get_elem? {ℓ} :
    {A : Type ℓ} (h : List A) (i : ℕ) (d : A) {a : A} → get_elem? h i ≡ some a → get_or h i d ≡ a
get_or-get_elem? [] i d e = cc
get_or-get_elem? (x ∷ xs) zero d e = cc
get_or-get_elem? (x ∷ xs) (suc i) d e = get_or-get_elem? xs i d e
