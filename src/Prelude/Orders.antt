-- ===== src/Prelude/Orders.antt =====
-- What Go leaves open, as parameters: the order in which a map is visited, and `sort.Sort`, which
-- sorts and need not be stable. Both rearrange a list, and what holds of all elements of the list,
-- or of every two of them, holds after.
use Prim.Native.Nat.{ℕ, ◌≤◌}
use mathlib.Core.Path.{◌≡◌, sym, ap, ◌∙◌, subst}
use mathlib.Core.Logic.{inl, inr}
use mathlib.Core.Bool.{Bool, true}
use mathlib.Core.Option.{some}
use native.Mathlib.Omega.{arith}
use starlight.Prelude.Tests.{Bool-cases, Comparable, ◌==◌}
use starlight.Prelude.Maps.{Map, lookup}
use mathlib.Core.List.{List, [], ◌∷◌, map, Permᴰ, Memᴰ}
use starlight.Prelude.Lists.{All, Apart, keep}

-- `for k, v := range m`: some order of the entries, whichever the runtime picks.
pub record MapOrder {ℓ} (A : Type ℓ) : Type ℓ where
  pub visit : List A → List A
  pub visit_perm : (l : List A) → Permᴰ l (visit l)

-- `sort.Sort` by a key: the same elements, in ascending order.
pub record Sorter {ℓ} (A : Type ℓ) (key : A → ℕ) : Type ℓ where
  pub sort : List A → List A
  pub sort_perm : (l : List A) → Permᴰ l (sort l)
  pub sort_ascends : (l : List A) → Apart (λ a b. key a ≤ key b) (sort l)

module _ {ℓ κ} {A : Type ℓ} (P : A → Type κ) where
  pub All-perm : {xs ys : List A} → Permᴰ xs ys → All P xs → All P ys
  All-perm Permᴰ.nil h = h
  All-perm (Permᴰ.cons e p) h = (subst P e h.0, All-perm p h.1)
  All-perm (Permᴰ.swap e f) h = (subst P f h.1.0, (subst P e h.0, h.1.1))
  All-perm (Permᴰ.trans p q) h = All-perm q (All-perm p h)

module _ {ℓ κ} {A : Type ℓ} {P Q : A → Type κ} (f : (a : A) → P a → Q a) where
  pub All-imp : (xs : List A) → All P xs → All Q xs
  All-imp [] h = tt
  All-imp (x ∷ xs) h = (f x h.0, All-imp xs h.1)

module _ {ℓ κ} {A : Type ℓ} (R : A → A → Type κ) (symm : (a b : A) → R a b → R b a) where
  pub Apart-perm : {xs ys : List A} → Permᴰ xs ys → Apart R xs → Apart R ys
  Apart-perm Permᴰ.nil h = h
  Apart-perm (Permᴰ.cons {l₂ = l₂} e p) h =
      (subst (λ a. All (R a) l₂) e (All-perm (R _) p h.0), Apart-perm p h.1)
  Apart-perm (Permᴰ.swap {a = a} {b = b} {b' = b'} {l = l} e f) h = (
    (subst (λ x. R x b') f (subst (R b) e (symm a b h.0.0)), subst (λ x. All (R x) l) f h.1.0),
    (subst (λ x. All (R x) l) e h.0.1, h.1.1),
  )
  Apart-perm (Permᴰ.trans p q) h = Apart-perm q (Apart-perm p h)

module _ {ℓ} {A : Type ℓ} {a : A} where
  pub Memᴰ-perm : {xs ys : List A} → Permᴰ xs ys → Memᴰ a xs → Memᴰ a ys
  Memᴰ-perm Permᴰ.nil m = elim m [ ]
  Memᴰ-perm (Permᴰ.cons e p) (Memᴰ.head q) = Memᴰ.head (q ∙ e)
  Memᴰ-perm (Permᴰ.cons e p) (Memᴰ.tail m) = Memᴰ.tail (Memᴰ-perm p m)
  Memᴰ-perm (Permᴰ.swap e f) (Memᴰ.head q) = Memᴰ.tail (Memᴰ.head (q ∙ e))
  Memᴰ-perm (Permᴰ.swap e f) (Memᴰ.tail (Memᴰ.head q)) = Memᴰ.head (q ∙ f)
  Memᴰ-perm (Permᴰ.swap e f) (Memᴰ.tail (Memᴰ.tail m)) = Memᴰ.tail (Memᴰ.tail m)
  Memᴰ-perm (Permᴰ.trans p q) m = Memᴰ-perm q (Memᴰ-perm p m)

module _ {ℓ κ} {A : Type ℓ} (P : A → Type κ) where
  pub All-Memᴰ : {a : A} {xs : List A} → Memᴰ a xs → All P xs → P a
  All-Memᴰ (Memᴰ.head e) h = subst P (sym e) h.0
  All-Memᴰ (Memᴰ.tail m) h = All-Memᴰ m h.1

module _ {ℓ} {A : Type ℓ} (p : A → Bool) {a : A} (passes : p a ≡ true) where
  pub Memᴰ-keep : {xs : List A} → Memᴰ a xs → Memᴰ a (keep p xs)
  Memᴰ-keep (Memᴰ.head {x = x} e) = rw (ap p (sym e) ∙ passes) (Memᴰ.head e)
  Memᴰ-keep (Memᴰ.tail {x = x} m) = elim (Bool-cases (p x)) [
    | inl q ↦ rw q (Memᴰ.tail (Memᴰ-keep m))
    | inr q ↦ rw q (Memᴰ-keep m)
  ]

module _ {ℓ κ} {A : Type ℓ} {B : Type κ} (f : A → B) {a : A} where
  pub Memᴰ-map : {xs : List A} → Memᴰ a xs → Memᴰ (f a) (map f xs)
  Memᴰ-map (Memᴰ.head e) = Memᴰ.head (ap f e)
  Memᴰ-map (Memᴰ.tail m) = Memᴰ.tail (Memᴰ-map m)

module _ {ℓ κ} {K : Type ℓ} {V : Type κ} ⦃e : Comparable K⦄ where
  pub lookup-Memᴰ : (k : K) (m : Map K V) {v : V} → lookup k m ≡ some v → Memᴰ (k, v) m
  unfolding lookup
  lookup-Memᴰ k [] h = cc
  lookup-Memᴰ k ((j, w) ∷ m) {v} h = elim (Bool-cases (j == k)) [
    | inl p ↦ Memᴰ.head (ground (arith, e.agrees j k))
    | inr p ↦ Memᴰ.tail (lookup-Memᴰ k m (ground arith))
  ]
