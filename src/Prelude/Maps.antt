-- ===== src/Prelude/Maps.antt =====
-- Go's maps as association lists, at most one entry to a key.
use mathlib.Core.Path.{◌≡◌, refl, sym, ap, ◌∙◌, subst}
use mathlib.Core.List.{List, [], ◌∷◌}
use mathlib.Core.Option.{Option, none, some}
use native.Mathlib.Omega.{arith}
use mathlib.Core.Logic.{◌≢◌, inl, inr}
use mathlib.Core.Bool.{Bool, true, false, false≢true}
use starlight.Prelude.Tests.{if◌then◌else◌, Comparable, ◌==◌, ==_self, Bool-cases}
use starlight.Prelude.Lists.{All, Apart}

abbrev pub Map {ℓ κ} : Type ℓ → Type κ → Type (ℓ ⊔ κ)
Map K V = List (K × V)

module _ {ℓ κ} {K : Type ℓ} {V : Type κ} ⦃e : Comparable K⦄ where
  -- v, has := m[k]
  unfoldable pub lookup : K → Map K V → Option V
  lookup key [] = none
  lookup key ((other, value) ∷ rest) = if other == key then some value else lookup key rest

  -- delete(m, k)
  unfoldable pub remove : K → Map K V → Map K V
  remove key [] = []
  remove key ((other, value) ∷ rest) =
      let kept = remove key rest in if other == key then kept else (other, value) ∷ kept

  -- m[k] = v
  unfoldable pub insert : K → V → Map K V → Map K V
  insert key new [] = (key, new) ∷ []
  insert key new ((other, old) ∷ rest) =
      if other == key then (key, new) ∷ rest else (other, old) ∷ insert key new rest

  -- What the map says of one key after another is set.
  pub lookup-insert :
      (set asked : K) (new : V) (m : Map K V)
      → lookup asked (insert set new m) ≡ (if set == asked then some new else lookup asked m)
  unfolding lookup insert
  lookup-insert set asked new [] = refl
  lookup-insert set asked new ((other, old) ∷ rest) = ground (
    arith,
    lookup-insert set asked new rest,
    e.agrees other set,
    e.agrees other asked,
    e.agrees set asked,
  )

  pub lookup-insert_other :
      (k j : K) (v : V) (m : Map K V) → j ≢ k → lookup j (insert k v m) ≡ lookup j m
  lookup-insert_other k j v m n = lookup-insert k j v m ∙ other (k == j) refl
    where
      other : (b : Bool) → (k == j) ≡ b → (if b then some v else lookup j m) ≡ lookup j m
      other true p = absurd (n (sym ((e.agrees k j).0 p)))
      other false p = refl

  pub lookup-insert_self : (k : K) (v : V) (m : Map K V) → lookup k (insert k v m) ≡ some v
  lookup-insert_self k v m =
      lookup-insert k k v m ∙ ap (λ b. if b then some v else lookup k m) (==_self k)

  pub lookup-remove :
      (k j : K) (m : Map K V) → lookup j (remove k m) ≡ (if k == j then none else lookup j m)
  unfolding lookup remove
  lookup-remove k j [] = ground arith
  lookup-remove k j ((i, w) ∷ m) =
      ground (arith, e.agrees k j, e.agrees i k, e.agrees i j, lookup-remove k j m)

-- A map that `insert` and `remove` made has each key once.
abbrev pub Keyed {ℓ κ} : {K : Type ℓ} {V : Type κ} → Map K V → Type ℓ
Keyed m = Apart (λ a b. a.0 ≢ b.0) m

module _ {ℓ κ} {K : Type ℓ} {V : Type κ} ⦃e : Comparable K⦄ where
  other_key :
      (j k : K) (v : V) (m : Map K V)
      → All (λ a. j ≢ a.0) m
      → j ≢ k
      → All (λ a. j ≢ a.0) (insert k v m)
  unfolding insert
  other_key j k v [] h n = (n, tt)
  other_key j k v ((i, w) ∷ m) h n = elim (Bool-cases (i == k)) [
    | inl p ↦ rw p (n, h.1)
    | inr p ↦ rw p (h.0, other_key j k v m h.1 n)
  ]

  pub insert-Keyed : (k : K) (v : V) (m : Map K V) → Keyed m → Keyed (insert k v m)
  unfolding insert
  insert-Keyed k v [] h = (tt, tt)
  insert-Keyed k v ((i, w) ∷ m) h = elim (Bool-cases (i == k)) [
    | inl p ↦ rw p (subst (λ x. All (λ a. x ≢ a.0) m) ((e.agrees i k).0 p) h.0, h.1)
    | inr p ↦ rw p (
      other_key i k v m h.0 (λ q. false≢true (sym p ∙ (e.agrees i k).1 q)),
      insert-Keyed k v m h.1,
    )
  ]

  behind :
      (j : K) (v : V) (m xs : Map K V)
      → All (λ a. j ≢ a.0) xs
      → All (λ a. lookup a.0 m ≡ some a.1) xs
      → All (λ a. lookup a.0 ((j, v) ∷ m) ≡ some a.1) xs
  unfolding lookup
  behind j v m [] n h = tt
  behind j v m ((k, w) ∷ xs) n h = elim (Bool-cases (j == k)) [
    | inl p ↦ absurd (n.0 ((e.agrees j k).0 p))
    | inr p ↦ (rw p h.0, behind j v m xs n.1 h.1)
  ]

  pub lookup_entries : (m : Map K V) → Keyed m → All (λ a. lookup a.0 m ≡ some a.1) m
  unfolding lookup
  lookup_entries [] h = tt
  lookup_entries ((j, v) ∷ m) h = (rw ==_self refl, behind j v m m h.0 (lookup_entries m h.1))

module _ {ℓ κ} {K : Type ℓ} {V : Type κ} ⦃e : Comparable K⦄ where
  pub remove_absent : (key : K) (m : Map K V) → All (λ a. key ≢ a.0) m → remove key m ≡ m
  unfolding remove
  remove_absent key [] h = refl
  remove_absent key ((other, value) ∷ rest) h = elim (Bool-cases (other == key)) [
    | inl p ↦ absurd (h.0 (sym ((e.agrees other key).0 p)))
    | inr p ↦ rw p (ap (λ l. (other, value) ∷ l) (remove_absent key rest h.1))
  ]

  still_apart : (j key : K) (m : Map K V) → All (λ a. j ≢ a.0) m → All (λ a. j ≢ a.0) (remove key m)
  unfolding remove
  still_apart j key [] h = tt
  still_apart j key ((other, value) ∷ rest) h = elim (Bool-cases (other == key)) [
    | inl p ↦ rw p (still_apart j key rest h.1)
    | inr p ↦ rw p (h.0, still_apart j key rest h.1)
  ]

  pub remove-Keyed : (key : K) (m : Map K V) → Keyed m → Keyed (remove key m)
  unfolding remove
  remove-Keyed key [] h = tt
  remove-Keyed key ((other, value) ∷ rest) h = elim (Bool-cases (other == key)) [
    | inl p ↦ rw p (remove-Keyed key rest h.1)
    | inr p ↦ rw p (still_apart other key rest h.0, remove-Keyed key rest h.1)
  ]

  absent_lookup : (key : K) (m : Map K V) → lookup key m ≡ none → All (λ a. key ≢ a.0) m
  unfolding lookup
  absent_lookup key [] h = tt
  absent_lookup key ((other, value) ∷ rest) h = elim (Bool-cases (other == key)) [
    | inl p ↦ ground (arith, h, p)
    | inr p ↦ (
      λ q. false≢true (sym p ∙ (e.agrees other key).1 (sym q)),
      absent_lookup key rest (ground (arith, h, p)),
    )
  ]

  -- A key that was not there is taken away again without a trace.
  pub remove-insert :
      (key : K) (value : V) (m : Map K V)
      → lookup key m ≡ none
      → remove key (insert key value m) ≡ m
  unfolding lookup insert remove
  remove-insert key value [] h = rw (==_self key) refl
  remove-insert key value ((other, old) ∷ rest) h = elim (Bool-cases (other == key)) [
    | inl p ↦ ground (arith, h, p)
    | inr p ↦ ground (arith, h, p, remove-insert key value rest)
  ]
