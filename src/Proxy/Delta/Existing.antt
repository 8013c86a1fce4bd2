-- ===== src/Proxy/Delta/Existing.antt =====
-- Step 1 of `computeDelta`: one existing file for each digest (proxy/builder.go).
use starlight.Prelude.{
  ℕ, ◌≤◌, String, ◌≡◌, ap, ◌∙◌, ◌⊎◌, inl, inr, Option, none, some, List, [], ◌∷◌, arith,
  nat_comparable, text_comparable, if◌then◌else◌, All, Map, lookup, insert, lookup-insert,
}
use starlight.Proxy.Delta.{skips_existing, deduplicate_existing}
use starlight.Proxy.Bundle.{File, LayerSource, from_source}
use text.Mathlib.TextEquality.{eq_iff}
use mathlib.Core.List.{Memᴰ}

-- There is a file, and its filesystem is number `n` or later.
abbrev pub Reaches : ℕ → Option File → Type 0
Reaches n none = ⊥
Reaches n (some e) = n ≤ e.fs_id

abbrev pub FromSource : Map ℕ LayerSource → File → Type 0
FromSource ids f = lookup f.fs_id ids ≡ some from_source

abbrev step : Map ℕ LayerSource → File → Map String File → Map String File
step ids f m = if skips_existing ids f (lookup f.digest m) then m else insert f.digest f m

step_keeps :
    (ids : Map ℕ LayerSource) (f : File) (m : Map String File) (d : String) (n : ℕ)
    → FromSource ids f
    → Reaches n (lookup d m)
    → Reaches n (lookup d (step ids f m))
unfolding skips_existing
step_keeps ids f m d n src h = ground (arith, lookup-insert f.digest d f m, eq_iff f.digest d)

step-Reaches :
    (ids : Map ℕ LayerSource) (f : File) (m : Map String File)
    → FromSource ids f
    → Reaches f.fs_id (lookup f.digest (step ids f m))
unfolding skips_existing
step-Reaches ids f m src =
    ground (arith, lookup-insert f.digest f.digest f m, eq_iff f.digest f.digest)

step_origin :
    (ids : Map ℕ LayerSource) (f : File) (m : Map String File) (d : String) (e : File)
    → lookup d (step ids f m) ≡ some e
    → (lookup d m ≡ some e) ⊎ ((e ≡ f) × (f.digest ≡ d))
step_origin ids f m d e h = ground (arith, lookup-insert f.digest d f m, eq_iff f.digest d)

keeps :
    (ids : Map ℕ LayerSource) (fs : List File) (m : Map String File) (d : String) (n : ℕ)
    → All (FromSource ids) fs
    → Reaches n (lookup d m)
    → Reaches n (lookup d (deduplicate_existing ids fs m))
unfolding deduplicate_existing
keeps ids [] m d n src h = h
keeps ids (f ∷ fs) m d n src h =
    keeps ids fs (step ids f m) d n src.1 (step_keeps ids f m d n src.0 h)

reaches :
    (ids : Map ℕ LayerSource) (fs : List File) (m : Map String File)
    → All (FromSource ids) fs
    → All (λ f. Reaches f.fs_id (lookup f.digest (deduplicate_existing ids fs m))) fs
unfolding deduplicate_existing
reaches ids [] m src = tt
reaches ids (f ∷ fs) m src = (
  keeps ids fs (step ids f m) f.digest f.fs_id src.1 (step-Reaches ids f m src.0),
  reaches ids fs (step ids f m) src.1,
)

origin :
    (ids : Map ℕ LayerSource) (fs : List File) (m : Map String File) (d : String) (e : File)
    → lookup d (deduplicate_existing ids fs m) ≡ some e
    → (lookup d m ≡ some e) ⊎ (Memᴰ e fs × (e.digest ≡ d))
unfolding deduplicate_existing
origin ids [] m d e h = inl h
origin ids (f ∷ fs) m d e h = elim (origin ids fs (step ids f m) d e h) [
  | inr (found, same) ↦ inr (Memᴰ.tail found, same)
  | inl old ↦ elim (step_origin ids f m d e old) [
    | inl before ↦ inl before
    | inr (here, same) ↦ inr (Memᴰ.head here, ap (λ (x : File). x.digest) here ∙ same)
  ]
]

-- If every existing file is in a layer of the source, then the file kept for a digest is one of them
-- and has that digest, every digest among them is kept, and the file kept is in the filesystem with
-- the greatest serial number of those that hold the digest.
pub deduplicate_existing_newest :
    (ids : Map ℕ LayerSource) (fs : List File)
    → All (FromSource ids) fs
    → All (λ f. Reaches f.fs_id (lookup f.digest (deduplicate_existing ids fs []))) fs
      × ((d : String) (e : File)
          → lookup d (deduplicate_existing ids fs []) ≡ some e
          → Memᴰ e fs × (e.digest ≡ d))
unfolding lookup
deduplicate_existing_newest ids fs src = (
  reaches ids fs [] src,
  λ d e h. elim (origin ids fs [] d e h) [ inl p ↦ cc | inr found ↦ found ],
)
