-- ===== src/Proxy/Delta/Requested.antt =====
-- Step 2 of `computeDelta`: the requested files grouped by digest (proxy/builder.go).
use starlight.Prelude.{
  ℕ, ◌+◌, String, ◌≡◌, refl, sym, ap, inl, inr, ◌&&◌, Option, none, some, List, [], ◌∷◌, ◌++◌,
  append-nil, append_assoc, arith, ◌==◌, nat_comparable, text_comparable, if◌then◌else◌, Bool-cases,
  Map, lookup, insert, lookup-insert, Keyed, insert-Keyed, ◌<◌, get_elem?, get_or, All, contains,
  false, suc, zero,
}
use starlight.Proxy.Delta.{Group, is_requested, add_file, group_requested, blank}
use starlight.Proxy.Bundle.{LayerSource, RankedFile}
use text.Mathlib.TextEquality.{eq_iff}

module _ (ids : Map ℕ LayerSource) where
  -- The positions, from `i` on, of the files to be sent or referenced that hold the digest.
  abbrev pub owned : String → ℕ → List RankedFile → List ℕ
  owned d i [] = []
  owned d i (r ∷ rs) =
      let rest = owned d (i + 1) rs in
      if is_requested ids r && r.file.digest == d then i ∷ rest else rest

abbrev pub extend : Option Group → List ℕ → Option Group
extend none [] = none
extend none (i ∷ is) = some (record { first_file = i; more_files = is })
extend (some g) is = some (record g { more_files = g.more_files ++ is })

extend-add_file :
    (o : Option Group) (i : ℕ) (is : List ℕ) → extend (some (add_file o i)) is ≡ extend o (i ∷ is)
unfolding add_file
extend-add_file none i is = refl
extend-add_file (some g) i is =
    ap (λ (l : List ℕ). some (record g { more_files = l })) (append_assoc g.more_files (i ∷ []) is)

extend-nil : (o : Option Group) → extend o [] ≡ o
extend-nil none = refl
extend-nil (some g) =
    ap (λ (l : List ℕ). some (record g { more_files = l })) (append-nil g.more_files)

module _ (ids : Map ℕ LayerSource) (d : String) where
  lookup-group_from :
      (rs : List RankedFile) (i : ℕ) (m : Map String Group)
      → lookup d (group_requested ids i rs m) ≡ extend (lookup d m) (owned ids d i rs)
  unfolding group_requested
  lookup-group_from [] i m = sym (extend-nil (lookup d m))
  lookup-group_from (r ∷ rs) i m =
      let k = r.file.digest in
      let m' : Map String Group =
        if is_requested ids r then insert k (add_file (lookup k m) i) m else m in
      ground (
        arith,
        lookup-group_from rs (i + 1) m',
        lookup-insert k d (add_file (lookup k m) i) m,
        eq_iff k d,
        extend-add_file (lookup d m) i (owned ids d (i + 1) rs),
      )

-- After the loop the map has, for each digest, the positions of the files to be served with that
-- digest in their order, and no entry for a digest without one.
pub lookup-group_requested :
    (ids : Map ℕ LayerSource) (rs : List RankedFile) (d : String)
    → lookup d (group_requested ids 0 rs []) ≡ extend none (owned ids d 0 rs)
unfolding lookup
lookup-group_requested ids rs d = lookup-group_from ids d rs 0 []

pub group_requested-Keyed :
    (ids : Map ℕ LayerSource) (rs : List RankedFile) (i : ℕ) (m : Map String Group)
    → Keyed m
    → Keyed (group_requested ids i rs m)
unfolding group_requested
group_requested-Keyed ids [] i m h = h
group_requested-Keyed ids (r ∷ rs) i m h = elim (Bool-cases (is_requested ids r)) [
  | inl p ↦ rw p (group_requested-Keyed ids rs (i + 1) _ (insert-Keyed r.file.digest _ m h))
  | inr p ↦ rw p (group_requested-Keyed ids rs (i + 1) m h)
]

module _ (ids : Map ℕ LayerSource) (d : String) where
  contains-owned_before :
      (rs : List RankedFile) (i j : ℕ) → j < i → contains (owned ids d i rs) j ≡ false
  contains-owned_before [] i j h = refl
  contains-owned_before (r ∷ rs) i j h =
      ground (arith, contains-owned_before rs (i + 1) j (omega arith))

  contains-owned_from :
      (rs : List RankedFile) (i k : ℕ) (r : RankedFile)
      → get_elem? rs k ≡ some r
      → contains (owned ids d i rs) (i + k) ≡ (is_requested ids r && r.file.digest == d)
  contains-owned_from [] i k r h = cc
  contains-owned_from (x ∷ rs) i zero r h =
      ground (arith, contains-owned_before rs (i + 1) i (omega arith))
  contains-owned_from (x ∷ rs) i (suc k) r h = ground (arith, contains-owned_from rs (i + 1) k r h)

  -- A position is in the group of a digest if the file there is to be sent and holds the digest.
  pub contains-owned :
      (rs : List RankedFile) (i : ℕ) (r : RankedFile)
      → get_elem? rs i ≡ some r
      → contains (owned ids d 0 rs) i ≡ (is_requested ids r && r.file.digest == d)
  contains-owned rs i r h = ground (arith, contains-owned_from rs 0 i r h)

  digest-owned_from :
      (full rs : List RankedFile) (i : ℕ)
      → ((k : ℕ) → get_or rs k blank ≡ get_or full (i + k) blank)
      → All (λ j. (get_or full j blank).file.digest ≡ d) (owned ids d i rs)
  digest-owned_from full [] i h = tt
  digest-owned_from full (x ∷ rs) i h =
      let rest = digest-owned_from full rs (i + 1) (λ k. ground (arith, h (suc k))) in
      elim (Bool-cases (is_requested ids x && x.file.digest == d)) [
        | inl p ↦ rw p (ground (arith, h 0, eq_iff x.file.digest d), rest)
        | inr p ↦ rw p rest
      ]

  -- Every file of a group holds its digest.
  pub digest-owned :
      (rs : List RankedFile) → All (λ j. (get_or rs j blank).file.digest ≡ d) (owned ids d 0 rs)
  digest-owned rs = digest-owned_from rs rs 0 (λ k. ground arith)
