-- ===== src/Client/Mounting/Serving.antt =====
-- What the entries of the layer map refer to, and what the pieces of the operations keep of it.
use starlight.Prelude.{
  ℕ, zero, suc, ◌-◌, ◌^◌, String, ◌≡◌, refl, ap, ◌∙◌, subst, ◌≢◌, inl, inr, Option, none, some,
  List, [], ◌∷◌, ◌++◌, arith, Comparable, ◌==◌, nat_comparable, text_comparable, Bool-cases,
  Option-cases, length, modify, All, Map, lookup, insert, All-imp,
}
use starlight.Client.Mounting.{
  Instance, LoadedManager, MountPoint, Client, hash_at, hash_of, link, link_layer, fresh,
  add_completed_layers,
}
use mathlib.Core.Path.{ap₂}
use std.Option.{some-injective}

-- The layer that an instance was made for.
unfoldable pub shown : List LoadedManager → List Instance → ℕ → Option String
shown ms [] f = none
shown ms (x ∷ xs) zero = hash_at ms x.manager x.stack
shown ms (x ∷ xs) (suc f) = shown ms xs f

-- The manager of an entry has the layer at the entry's stack, and the filesystem of an entry was made
-- for the layer, by an entry that has a manager.
abbrev pub Manages : List LoadedManager → Option ℕ → ℕ → String → Type 0
Manages ms none stack digest = Unit
Manages ms (some m) stack digest = hash_at ms m stack ≡ some digest

abbrev pub Shows : List LoadedManager → List Instance → Option ℕ → Option ℕ → String → Type 0
Shows ms fs none m digest = Unit
Shows ms fs (some f) m digest = (shown ms fs f ≡ some digest) × (m ≢ none)

abbrev pub Serves : List LoadedManager → List Instance → String × MountPoint → Type 0
Serves ms fs (digest, mp) =
    Manages ms mp.manager mp.stack digest × Shows ms fs mp.fs mp.manager digest

abbrev pub Sound : Client → Type 0
Sound c = All (Serves c.managers c.instances) c.layer_map

-- A predicate on the entries of a map.
module _ {ℓ κ μ} {K : Type ℓ} {V : Type κ} ⦃e : Comparable K⦄ (P : K × V → Type μ) where
  pub All-insert : (k : K) (v : V) (m : Map K V) → P (k, v) → All P m → All P (insert k v m)
  unfolding insert
  All-insert k v [] p h = (p, tt)
  All-insert k v ((j, w) ∷ m) p h = elim (Bool-cases (j == k)) [
    | inl q ↦ rw q (p, h.1)
    | inr q ↦ rw q (h.0, All-insert k v m p h.1)
  ]

  pub All-lookup : (k : K) (v : V) (m : Map K V) → All P m → lookup k m ≡ some v → P (k, v)
  unfolding lookup
  All-lookup k v [] h q = cc
  All-lookup k v ((j, w) ∷ m) h q = elim (Bool-cases (j == k)) [
    | inl p ↦
        subst P (ap₂ (λ x y. (x, y)) ((e.agrees j k).0 p) (some-injective (ground (arith, p, q))))
          h.0
    | inr p ↦ All-lookup k v m h.1 (ground (arith, p, q))
  ]

-- What another list of managers or instances still says.
hash_at-append :
    (ms ns : List LoadedManager) (i stack : ℕ) (digest : String)
    → hash_at ms i stack ≡ some digest
    → hash_at (ms ++ ns) i stack ≡ some digest
unfolding hash_at
hash_at-append [] ns i stack digest h = cc
hash_at-append (m ∷ ms) ns zero stack digest h = h
hash_at-append (m ∷ ms) ns (suc i) stack digest h = hash_at-append ms ns i stack digest h

pub hash_at-modify :
    (f : LoadedManager → LoadedManager) (same : (m : LoadedManager) → (f m).image ≡ m.image)
    (ms : List LoadedManager) (j i stack : ℕ)
    → hash_at (modify ms j f) i stack ≡ hash_at ms i stack
unfolding hash_at
hash_at-modify f same [] j i stack = refl
hash_at-modify f same (m ∷ ms) zero zero stack = ap (λ n. hash_of n stack) (same m)
hash_at-modify f same (m ∷ ms) zero (suc i) stack = refl
hash_at-modify f same (m ∷ ms) (suc j) zero stack = refl
hash_at-modify f same (m ∷ ms) (suc j) (suc i) stack = hash_at-modify f same ms j i stack

shown_grows :
    (ms ns : List LoadedManager)
    (grow : (i stack : ℕ) (d : String) → hash_at ms i stack ≡ some d → hash_at ns i stack ≡ some d)
    (fs : List Instance) (f : ℕ) (digest : String)
    → shown ms fs f ≡ some digest
    → shown ns fs f ≡ some digest
unfolding shown
shown_grows ms ns grow [] f digest h = cc
shown_grows ms ns grow (x ∷ xs) zero digest h = grow x.manager x.stack digest h
shown_grows ms ns grow (x ∷ xs) (suc f) digest h = shown_grows ms ns grow xs f digest h

pub shown-append :
    (ms : List LoadedManager) (fs gs : List Instance) (f : ℕ) (digest : String)
    → shown ms fs f ≡ some digest
    → shown ms (fs ++ gs) f ≡ some digest
unfolding shown
shown-append ms [] gs f digest h = cc
shown-append ms (x ∷ xs) gs zero digest h = h
shown-append ms (x ∷ xs) gs (suc f) digest h = shown-append ms xs gs f digest h

pub shown-modify :
    (ms : List LoadedManager) (g : Instance → Instance)
    (managed : (x : Instance) → (g x).manager ≡ x.manager)
    (stacked : (x : Instance) → (g x).stack ≡ x.stack) (fs : List Instance) (j f : ℕ)
    → shown ms (modify fs j g) f ≡ shown ms fs f
unfolding shown
shown-modify ms g managed stacked [] j f = refl
shown-modify ms g managed stacked (x ∷ xs) zero zero = ap₂ (hash_at ms) (managed x) (stacked x)
shown-modify ms g managed stacked (x ∷ xs) zero (suc f) = refl
shown-modify ms g managed stacked (x ∷ xs) (suc j) zero = refl
shown-modify ms g managed stacked (x ∷ xs) (suc j) (suc f) =
    shown-modify ms g managed stacked xs j f

-- The instance that comes last.
pub shown_new :
    (ms : List LoadedManager) (fs : List Instance) (x : Instance)
    → shown ms (fs ++ x ∷ []) (length fs) ≡ hash_at ms x.manager x.stack
unfolding shown
shown_new ms [] x = refl
shown_new ms (y ∷ ys) x = shown_new ms ys x

-- The entries stay right when the managers and the instances say no less.
Serves-grow :
    (ms ns : List LoadedManager) (fs gs : List Instance)
    (grow : (i stack : ℕ) (d : String) → hash_at ms i stack ≡ some d → hash_at ns i stack ≡ some d)
    (seen : (f : ℕ) (d : String) → shown ms fs f ≡ some d → shown ns gs f ≡ some d)
    (a : String × MountPoint)
    → Serves ms fs a
    → Serves ns gs a
Serves-grow ms ns fs gs grow seen (digest, mp) (managed, shows) =
    (manages mp.manager managed, filesystem mp.fs shows)
  where
    manages : (m : Option ℕ) → Manages ms m mp.stack digest → Manages ns m mp.stack digest
    manages none h = tt
    manages (some m) h = grow m mp.stack digest h

    filesystem : (f : Option ℕ) → Shows ms fs f mp.manager digest → Shows ns gs f mp.manager digest
    filesystem none h = tt
    filesystem (some f) h = (seen f digest h.0, h.1)

module _ (m : Map String MountPoint) (ms : List LoadedManager) (fs : List Instance) where
  pub Serves-append :
      (ns : List LoadedManager) → All (Serves ms fs) m → All (Serves (ms ++ ns) fs) m
  Serves-append ns =
      All-imp {P = Serves ms fs} {Q = Serves (ms ++ ns) fs}
        (Serves-grow ms (ms ++ ns) fs fs (hash_at-append ms ns)
          (shown_grows ms (ms ++ ns) (hash_at-append ms ns) fs))
        m

  pub Serves-modify :
      (f : LoadedManager → LoadedManager) (same : (x : LoadedManager) → (f x).image ≡ x.image)
      (j : ℕ)
      → All (Serves ms fs) m
      → All (Serves (modify ms j f) fs) m
  Serves-modify f same j =
      let grow : (i stack : ℕ) (d : String)
          → hash_at ms i stack ≡ some d
          → hash_at (modify ms j f) i stack ≡ some d =
        λ i stack d h. hash_at-modify f same ms j i stack ∙ h in
      All-imp {P = Serves ms fs} {Q = Serves (modify ms j f) fs}
        (Serves-grow ms (modify ms j f) fs fs grow (shown_grows ms (modify ms j f) grow fs)) m

  pub Serves-write :
      (g : Instance → Instance) (managed : (x : Instance) → (g x).manager ≡ x.manager)
      (stacked : (x : Instance) → (g x).stack ≡ x.stack) (j : ℕ)
      → All (Serves ms fs) m
      → All (Serves ms (modify fs j g)) m
  Serves-write g managed stacked j =
      All-imp {P = Serves ms fs} {Q = Serves ms (modify fs j g)}
        (Serves-grow ms ms fs (modify fs j g) (λ i stack d h. h)
          (λ f d h. shown-modify ms g managed stacked fs j f ∙ h))
        m

  pub Serves-more : (gs : List Instance) → All (Serves ms fs) m → All (Serves ms (fs ++ gs)) m
  Serves-more gs =
      All-imp {P = Serves ms fs} {Q = Serves ms (fs ++ gs)}
        (Serves-grow ms ms fs (fs ++ gs) (λ i stack d h. h) (shown-append ms fs gs)) m

-- The layer map itself.
pub Sound-add_completed_layers :
    (digest : String) (c : Client) → Sound c → Sound (add_completed_layers digest c)
unfolding add_completed_layers fresh
Sound-add_completed_layers digest c h = elim (Option-cases (lookup digest c.layer_map)) [
  | inl p ↦
      rw (add_completed_layers, p)
        (All-insert (Serves c.managers c.instances) digest (fresh none (2 ^ 64 - 1)) c.layer_map
          (tt, tt) h)
  | inr (mp, p) ↦ rw (add_completed_layers, p) h
]

linked :
    (m stack : ℕ) (digest : String) (ms : List LoadedManager) (fs : List Instance)
    → hash_at ms m stack ≡ some digest
    → (mp : MountPoint) → Serves ms fs (digest, mp)
    → Serves ms fs (digest, link m stack (some mp))
unfolding link
linked m stack digest ms fs e mp h = cases mp.manager refl
  where
    cases : (o : Option ℕ) → mp.manager ≡ o → Serves ms fs (digest, link m stack (some mp))
    cases none p = rw (link, p) (e, opened mp.fs h.1)
      where
        opened : (f : Option ℕ) → Shows ms fs f mp.manager digest → Shows ms fs f (some m) digest
        opened none _ = tt
        opened (some f) s = (s.0, λ q. absurd (s.1 p))
    cases (some i) p = rw (link, p) h

pub Sound-link_layer :
    (m stack : ℕ) (digest : String) (c : Client)
    → hash_at c.managers m stack ≡ some digest
    → Sound c
    → Sound (link_layer m stack digest c)
unfolding link_layer link fresh
Sound-link_layer m stack digest c e h =
    All-insert (Serves c.managers c.instances) digest (link m stack (lookup digest c.layer_map))
      c.layer_map (entry (lookup digest c.layer_map) refl) h
  where
    entry :
        (o : Option MountPoint)
        → lookup digest c.layer_map ≡ o
        → Serves c.managers c.instances (digest, link m stack o)
    entry none p = (e, tt)
    entry (some mp) p =
        linked m stack digest c.managers c.instances e mp
          (All-lookup (Serves c.managers c.instances) digest mp c.layer_map h p)
