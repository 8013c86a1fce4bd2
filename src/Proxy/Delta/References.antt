-- ===== src/Proxy/Delta/References.antt =====
-- Step 3 of `computeDelta`: references to existing files, and the contents to send
-- (proxy/builder.go).
use starlight.Prelude.{
  ℕ, String, ◌≡◌, refl, ap, ◌∙◌, inl, inr, Bool, true, false, ◌&&◌, ◌||◌, Option, none, some, List,
  [], ◌∷◌, ◌++◌, arith, ltb, nat_comparable, text_comparable, if◌then◌else◌, Option-cases,
  get_elem?, write_all, All, contains, Map, lookup, get_elem?-write_all, not, map, field-write_all,
  sym, keep, append-nil, append_assoc,
}
use starlight.Proxy.Delta.{
  blank, content_from, Group, deref, scan_files, new_content, set_reference, find_references,
}
use starlight.Proxy.Bundle.{RankedFile, File, Content, max_float64}
use mathlib.Core.Option

abbrev pub group_files : Group → List ℕ
group_files g = g.first_file ∷ g.more_files

-- The part of a requested file that no loop writes.
abbrev pub core : RankedFile → File × ℕ × ℕ
core r = (r.file, r.rank, r.stack)

-- The two heaps hold the same files.
abbrev pub SameCore : List RankedFile → List RankedFile → Type 0
SameCore h rs = (i : ℕ) → core (deref h i) ≡ core (deref rs i)

scan_files-core :
    (h rs : List RankedFile)
    → SameCore h rs
    → (is : List ℕ) (rank stack : ℕ) → scan_files h is rank stack ≡ scan_files rs is rank stack
unfolding scan_files
scan_files-core h rs same [] rank stack = refl
scan_files-core h rs same (i ∷ is) rank stack =
    scan_files-core h rs same is _ _
    ∙ ap
        (λ (c : File × ℕ × ℕ).
          scan_files rs is (if ltb c.1 rank then c.1 else rank)
            (if ltb c.2 stack then c.2 else stack))
        (same i)

new_content-core :
    (h rs : List RankedFile) (g : Group) → SameCore h rs → new_content h g ≡ new_content rs g
unfolding new_content
new_content-core h rs g same =
    let is = g.first_file ∷ g.more_files in
    ap (content_from g) (
      scan_files-core h rs same is max_float64 (deref h g.first_file).stack
      ∙ ap (λ (c : File × ℕ × ℕ). scan_files rs is max_float64 c.2) (same g.first_file))

abbrev pub present : Option File → Bool
present none = false
present (some _) = true

-- Some content that is referenced holds the file `i`.
abbrev pub touches : Map String File → ℕ → List (String × Group) → Bool
touches existing i [] = false
touches existing i ((d, g) ∷ es) =
    contains (group_files g) i && present (lookup d existing) || touches existing i es

-- Every content that holds the file `i` and is referenced is found in filesystem `k`.
abbrev pub Agree : Map String File → ℕ → ℕ → List (String × Group) → Type 0
Agree existing i k = All (λ e.
    (f : File) → contains (group_files e.1) i ≡ true → lookup e.0 existing ≡ some f → f.fs_id ≡ k)

module _ (existing : Map String File) (i k : ℕ) where
  pub get_elem?-find_references :
      (es : List (String × Group)) (h : List RankedFile) (cs : List Content)
      → Agree existing i k es
      → get_elem? (find_references existing es h cs).0 i ≡ (
          if touches existing i es
          then Option.map (set_reference k) (get_elem? h i)
          else get_elem? h i)
  unfolding find_references
  get_elem?-find_references [] h cs a = refl
  get_elem?-find_references ((d, g) ∷ es) h cs a = elim (Option-cases (lookup d existing)) [
    | inl p ↦ ground (arith, get_elem?-find_references es h (cs ++ new_content h g ∷ []) a.1)
    | inr (f, p) ↦ ground (
      arith,
      a.0 f,
      get_elem?-write_all (set_reference f.fs_id) (λ r. refl) (group_files g) h i,
      get_elem?-find_references es (write_all (set_reference f.fs_id) (group_files g) h) cs a.1,
    )
  ]

abbrev pub absent : Map String File → String × Group → Bool
absent existing e = not (present (lookup e.0 existing))

-- The contents of the groups that no existing file serves.
abbrev pub to_send : Map String File → List RankedFile → List (String × Group) → List Content
to_send existing rs es = map (λ e. new_content rs e.1) (keep (absent existing) es)

module _ (existing : Map String File) (d : String) (g : Group) (es : List (String × Group))
    (h : List RankedFile) (cs : List Content) where
  sent :
      lookup d existing ≡ none
      → find_references existing ((d, g) ∷ es) h cs
        ≡ find_references existing es h (cs ++ new_content h g ∷ [])
  unfolding find_references
  sent p = rw (p, find_references) refl

  referenced :
      (f : File)
      → lookup d existing ≡ some f
      → find_references existing ((d, g) ∷ es) h cs
        ≡ find_references existing es (write_all (set_reference f.fs_id) (group_files g) h) cs
  unfolding find_references
  referenced f p = rw (p, find_references) refl

module _ (existing : Map String File) (rs : List RankedFile) where
  SameCore-write_all :
      (k : ℕ) (is : List ℕ) (h : List RankedFile)
      → SameCore h rs
      → SameCore (write_all (set_reference k) is h) rs
  unfolding set_reference
  SameCore-write_all k is h same i =
      field-write_all (set_reference k) core (λ r. refl) blank is h i ∙ same i

  pub SameCore-find_references :
      (es : List (String × Group)) (h : List RankedFile) (cs : List Content)
      → SameCore h rs
      → SameCore (find_references existing es h cs).0 rs
  SameCore-find_references [] h cs same = unfold find_references in same
  SameCore-find_references ((d, g) ∷ es) h cs same = elim (Option-cases (lookup d existing)) [
    | inl p ↦ rw (sent existing d g es h cs p) (SameCore-find_references es h _ same)
    | inr (f, p) ↦
        rw (referenced existing d g es h cs f p)
          (SameCore-find_references es _ cs (SameCore-write_all f.fs_id (group_files g) h same))
  ]

  pub contents-find_references :
      (es : List (String × Group)) (h : List RankedFile) (cs : List Content)
      → SameCore h rs
      → (find_references existing es h cs).1 ≡ cs ++ to_send existing rs es
  contents-find_references [] h cs same = unfold find_references in sym (append-nil cs)
  contents-find_references ((d, g) ∷ es) h cs same = elim (Option-cases (lookup d existing)) [
    | inl p ↦
        rw (sent existing d g es h cs p, p)
          (contents-find_references es h _ same
            ∙ append_assoc cs (new_content h g ∷ []) (to_send existing rs es)
            ∙ ap (λ c. cs ++ c ∷ to_send existing rs es) (new_content-core h rs g same))
    | inr (f, p) ↦
        rw (referenced existing d g es h cs f p, p)
          (contents-find_references es _ cs (SameCore-write_all f.fs_id (group_files g) h same))
  ]
