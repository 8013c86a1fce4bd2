-- ===== src/Common/Directory/Links.antt =====
-- The number of links of a directory counts its subdirectories (util/common/toc.go).
use starlight.Prelude.{
  ℕ, ◌+◌, String, ◌≡◌, subst, ◌≢◌, inl, inr, none, some, [], ◌∷◌, arith, ◌==◌, nat_comparable,
  text_comparable, if◌then◌else◌, Bool-cases, All, Map, lookup, insert, remove, Keyed,
  remove_absent, insert-Keyed, Option-cases, ap, lookup-insert_self, remove-Keyed, ◌∙◌,
  remove-insert, ◌-◌, sym, refl,
}
use starlight.Common.Directory.{
  is_dir, TocEntry, add_child, remove_child, unlink, remove_all_children,
}
use mathlib.Core.Path.{ap₂}

module _ (kind : ℕ → String) where
  abbrev pub directories : Map String ℕ → ℕ
  directories [] = 0
  directories ((_, item) ∷ items) = directories items + (if is_dir kind item then 1 else 0)

  -- There are `base` links besides those of the subdirectories, and no name occurs twice.
  abbrev pub Counts : ℕ → TocEntry → Type 0
  Counts base e = (e.num_link ≡ base + directories e.children) × Keyed e.children

  directories-insert :
      (name : String) (child : ℕ) (m : Map String ℕ)
      → lookup name m ≡ none
      → directories (insert name child m) ≡ directories m + (if is_dir kind child then 1 else 0)
  unfolding lookup insert
  directories-insert name child [] h = ground arith
  directories-insert name child ((k, v) ∷ m) h = ground (arith, directories-insert name child m)

  directories-remove :
      (name : String) (item : ℕ) (m : Map String ℕ)
      → Keyed m
      → lookup name m ≡ some item
      → directories m ≡ directories (remove name m) + (if is_dir kind item then 1 else 0)
  unfolding lookup remove
  directories-remove name item [] k h = cc
  directories-remove name item ((n, v) ∷ m) k h = elim (Bool-cases (n == name)) [
    | inl p ↦ ground (
      arith,
      h,
      p,
      remove_absent name m
          (subst (λ x. All (λ a. x ≢ a.0) m) ((text_comparable.agrees n name).0 p) k.0),
    )
    | inr p ↦ ground (arith, h, p, directories-remove name item m k.1)
  ]

  Counts-add_child :
      (base : ℕ) (name : String) (child : ℕ) (e : TocEntry)
      → lookup name e.children ≡ none
      → Counts base e
      → Counts base (add_child kind name child e)
  unfolding add_child
  Counts-add_child base name child e h c = (
    ground (arith, c.0, directories-insert name child e.children h),
    insert-Keyed name child e.children c.1,
  )

  remove_child_found :
      (name : String) (item : ℕ) (e : TocEntry)
      → lookup name e.children ≡ some item
      → remove_child kind name e ≡ record {
        num_link = if is_dir kind item then e.num_link - 1 else e.num_link;
        children = remove name e.children;
      }
  unfolding remove_child
  remove_child_found name item e h = rw (remove_child, h) refl

  remove_child_missing :
      (name : String) (e : TocEntry) → lookup name e.children ≡ none → remove_child kind name e ≡ e
  unfolding remove_child
  remove_child_missing name e h = rw (remove_child, h) refl

  Counts-remove_child :
      (base : ℕ) (name : String) (e : TocEntry)
      → Counts base e
      → Counts base (remove_child kind name e)
  Counts-remove_child base name e c = elim (Option-cases (lookup name e.children)) [
    | inl p ↦ subst (Counts base) (sym (remove_child_missing name e p)) c
    | inr (item, p) ↦ subst (Counts base) (sym (remove_child_found name item e p)) (
      ground (arith, c.0, directories-remove name item e.children c.1 p),
      remove-Keyed name e.children c.1,
    )
  ]

  unlink-directories : (m : Map String ℕ) (base : ℕ) → unlink kind m (base + directories m) ≡ base
  unfolding unlink
  unlink-directories [] base = ground arith
  unlink-directories ((k, v) ∷ m) base = elim (Bool-cases (is_dir kind v)) [
    | inl p ↦ rw p (ap (unlink kind m) (omega arith) ∙ unlink-directories m base)
    | inr p ↦ rw p (ap (unlink kind m) (omega arith) ∙ unlink-directories m base)
  ]

  -- If the links of a directory are a number of its own and one for each subdirectory, under names
  -- that are all different, then they still are after a child is added under a new name and after a
  -- child is removed, and when all children are removed its own number is left.
  pub Counts-children :
      (base : ℕ) (name : String) (child : ℕ) (e : TocEntry)
      → lookup name e.children ≡ none
      → Counts base e
      → Counts base (add_child kind name child e)
        × ((other : String) → Counts base (remove_child kind other e))
        × (remove_all_children kind e ≡ record { num_link = base; children = [] })
  unfolding remove_all_children
  Counts-children base name child e h c = (
    Counts-add_child base name child e h c,
    λ other. Counts-remove_child base other e c,
    ap (λ n. record { num_link = n; children = [] })
        (ap (unlink kind e.children) c.0 ∙ unlink-directories e.children base),
  )

  -- Adding a child under a new name and removing it leaves the directory as it was.
  pub remove_child-add_child :
      (name : String) (child : ℕ) (e : TocEntry)
      → lookup name e.children ≡ none
      → remove_child kind name (add_child kind name child e) ≡ e
  unfolding add_child
  remove_child-add_child name child e h =
      let make : ℕ → Map String ℕ → TocEntry = λ n m. record { num_link = n; children = m } in
      remove_child_found name child (add_child kind name child e)
        (lookup-insert_self name child e.children)
      ∙ ap₂ make (ground arith) (remove-insert name child e.children h)
