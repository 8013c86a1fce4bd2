-- ===== src/Proxy/Delta/Placement.antt =====
-- Step 4 of `computeDelta`: where each requested file finds its content (proxy/builder.go).
use mathlib.Core.Option
use mathlib.Core.Bool.{false≢true}
use mathlib.Core.List.{Memᴰ}
use starlight.Prelude.{
  ℕ, suc, ◌+◌, ◌≡◌, refl, sym, ap, ◌∙◌, subst, inl, inr, true, false, some, List, [], ◌∷◌, arith,
  nat_comparable, text_comparable, Bool-cases, add64, get_elem?, write_all, All, Apart, contains,
  All-imp, All-Memᴰ, get_elem?-write_all, field-write_all,
}
use starlight.Proxy.Bundle.{Content, RankedFile, files_of, File}
use starlight.Proxy.Delta.{set_payload, lay_out, Layout, place, deref, blank}
use starlight.Proxy.Delta.References.{SameCore, core}

-- Two contents do not both hold the file `i`.
abbrev pub Disjoint : ℕ → Content → Content → Type 0
Disjoint i a b = contains (files_of a) i ≡ true → contains (files_of b) i ≡ false

set_payload_idem :
    (stack k : ℕ) (r : RankedFile)
    → set_payload stack k (set_payload stack k r) ≡ set_payload stack k r
unfolding set_payload
set_payload_idem stack k r = refl

SameCore-set_payload :
    (rs : List RankedFile) (stack k : ℕ) (is : List ℕ) (h : List RankedFile)
    → SameCore h rs
    → SameCore (write_all (set_payload stack k) is h) rs
unfolding set_payload
SameCore-set_payload rs stack k is h same i =
    field-write_all (set_payload stack k) core (λ r. refl) blank is h i ∙ same i

-- A write of a content that does not hold the file leaves it alone, and one that does fills it in.
module _ (i : ℕ) (c : Content) (k : ℕ) (h : List RankedFile) where
  passed_by :
      contains (files_of c) i ≡ false
      → get_elem? (write_all (set_payload c.stack k) (files_of c) h) i ≡ get_elem? h i
  passed_by p = ground (
    arith,
    get_elem?-write_all (set_payload c.stack k) (set_payload_idem c.stack k) (files_of c) h i,
  )

  filled_in :
      contains (files_of c) i ≡ true
      → get_elem? (write_all (set_payload c.stack k) (files_of c) h) i
        ≡ Option.map (set_payload c.stack k) (get_elem? h i)
  filled_in p = ground (
    arith,
    get_elem?-write_all (set_payload c.stack k) (set_payload_idem c.stack k) (files_of c) h i,
  )

module _ (i : ℕ) where
  pub untouched :
      (cs : List Content) (idx start : ℕ) (h : List RankedFile)
      → All (λ c. contains (files_of c) i ≡ false) cs
      → get_elem? (lay_out idx start cs h).requested_files i ≡ get_elem? h i
  unfolding lay_out
  untouched [] idx start h a = refl
  untouched (c ∷ cs) idx start h a =
      let h' = write_all (set_payload c.stack idx) (files_of c) h in
      untouched cs (idx + 1) _ h' a.1 ∙ passed_by i c idx h a.0

-- Content number `k` of the layout is `c` with its place, and the file `i` points to it.
abbrev pub PlacedAt : ℕ → Layout → List RankedFile → List RankedFile → Content → ℕ → Type 0
PlacedAt idx l h rs c i =
    (k : ℕ) × (c' : Content) × (get_elem? l.contents k ≡ some c')
    × (files_of c' ≡ files_of c)
    × (c'.stack ≡ c.stack)
    × (c'.digest ≡ (deref rs c.first_file).file.digest)
    × (get_elem? l.requested_files i ≡ Option.map (set_payload c.stack (idx + k)) (get_elem? h i))

same_index : (idx : ℕ) → idx ≡ idx + 0
same_index idx = omega arith

next_index : (idx k : ℕ) → idx + 1 + k ≡ idx + suc k
next_index idx k = omega arith

module _ (rs : List RankedFile) (i : ℕ) where
  placed_here :
      (c : Content) (cs : List Content) (idx start : ℕ) (h : List RankedFile)
      → contains (files_of c) i ≡ true
      → SameCore h rs
      → All (λ b. contains (files_of b) i ≡ false) cs
      → PlacedAt idx (lay_out idx start (c ∷ cs) h) h rs c i
  unfolding lay_out place
  placed_here c cs idx start h p same a =
      let h' = write_all (set_payload c.stack idx) (files_of c) h in
      let c' = place start (deref h' c.first_file).file c in
      (
        0,
        c',
        refl,
        refl,
        refl,
        ap (λ (x : File × ℕ × ℕ). x.0.digest)
            (SameCore-set_payload rs c.stack idx (files_of c) h same c.first_file),
        untouched i cs (idx + 1) _ h' a
            ∙ filled_in i c idx h p
            ∙ ap (λ n. Option.map (set_payload c.stack n) (get_elem? h i)) (same_index idx),
      )

  placed_later :
      (c x : Content) (cs : List Content) (idx start : ℕ) (h : List RankedFile)
      → contains (files_of x) i ≡ false
      → (let h' = write_all (set_payload x.stack idx) (files_of x) h in
          PlacedAt
            (idx + 1)
            (lay_out
              (idx + 1)
              (add64 start (place start (deref h' x.first_file).file x).size)
              cs
              h')
            h'
            rs
            c
            i)
      → PlacedAt idx (lay_out idx start (x ∷ cs) h) h rs c i
  unfolding lay_out
  placed_later c x cs idx start h q (k, c', found, files, stack, digest, pointer) = (
    suc k,
    c',
    found,
    files,
    stack,
    digest,
    pointer
        ∙ ap (Option.map (set_payload c.stack (idx + 1 + k))) (passed_by i x idx h q)
        ∙ ap (λ n. Option.map (set_payload c.stack n) (get_elem? h i)) (next_index idx k),
  )

  pub lay_out-PlacedAt :
      (c : Content) (cs : List Content) (idx start : ℕ) (h : List RankedFile)
      → Memᴰ c cs
      → contains (files_of c) i ≡ true
      → SameCore h rs
      → Apart (Disjoint i) cs
      → PlacedAt idx (lay_out idx start cs h) h rs c i
  lay_out-PlacedAt c [] idx start h m p same a = elim m [ ]
  lay_out-PlacedAt c (x ∷ cs) idx start h (Memᴰ.head e) p same a =
      subst (λ y. PlacedAt idx (lay_out idx start (y ∷ cs) h) h rs c i) e
        (placed_here c cs idx start h p same (
          All-imp (λ b (d : Disjoint i c b). d p) cs
            (subst (λ y. All (Disjoint i y) cs) (sym e) a.0)))
  lay_out-PlacedAt c (x ∷ cs) idx start h (Memᴰ.tail m) p same a =
      let h' = write_all (set_payload x.stack idx) (files_of x) h in
      placed_later c x cs idx start h (excluded (All-Memᴰ (Disjoint i x) m a.0)) (
        lay_out-PlacedAt c cs (idx + 1) _ h' m p
          (SameCore-set_payload rs x.stack idx (files_of x) h same) a.1)
    where
      excluded : Disjoint i x c → contains (files_of x) i ≡ false
      excluded d = elim (Bool-cases (contains (files_of x) i)) [
        | inl q ↦ absurd (false≢true (sym (d q) ∙ p))
        | inr q ↦ q
      ]
