-- ===== src/Proxy/Delta/Grouped.antt =====
-- Which groups, and which contents to send, hold a given requested file (proxy/builder.go).
use starlight.Prelude.{
  ℕ, String, ◌≡◌, refl, sym, ap, ◌∙◌, subst, ◌≢◌, inl, inr, Bool, true, false, not, ◌&&◌, Option,
  none, some, List, [], ◌∷◌, arith, ◌==◌, nat_comparable, text_comparable, Bool-cases, get_elem?,
  All, Apart, contains, Map, lookup, Keyed, lookup_entries, MapOrder, All-perm, All-imp,
}
use mathlib.Core.List.{Memᴰ}
use starlight.Proxy.Delta.{content_from, Group, group_requested, is_requested, new_content}
use text.Mathlib.TextEquality.{eq_iff}
use starlight.Proxy.Bundle.{LayerSource, File, RankedFile, Content, files_of}
use starlight.Proxy.Delta.References.{group_files, present, to_send, touches, Agree, absent}
use starlight.Proxy.Delta.Placement.{Disjoint}
use starlight.Proxy.Delta.Requested.{
  owned, extend, group_requested-Keyed, contains-owned, lookup-group_requested,
}

-- The entry has the requested files with its digest, all of them and in their order.
abbrev pub Own : Map ℕ LayerSource → List RankedFile → String × Group → Type 0
Own ids rs e = group_files e.1 ≡ owned ids e.0 0 rs

Own-group_requested :
    (ids : Map ℕ LayerSource) (rs : List RankedFile)
    → (e : String × Group) → lookup e.0 (group_requested ids 0 rs []) ≡ some e.1
    → Own ids rs e
Own-group_requested ids rs e h =
    from_extend (owned ids e.0 0 rs) (sym (lookup-group_requested ids rs e.0) ∙ h)
  where
    from_extend : (is : List ℕ) → extend none is ≡ some e.1 → group_files e.1 ≡ is
    from_extend [] p = cc
    from_extend (i ∷ is) p =
        ap (λ (o : Option Group). elim o [ none ↦ [] | some g ↦ group_files g ]) (sym p)

-- The entries of the map, in whichever order they are visited.
pub All-Own-visit :
    (order : MapOrder (String × Group)) (ids : Map ℕ LayerSource) (rs : List RankedFile)
    → All (Own ids rs) (order.visit (group_requested ids 0 rs []))
All-Own-visit order ids rs =
    let m = group_requested ids 0 rs [] in
    All-perm (Own ids rs) (order.visit_perm m) (
      All-imp (Own-group_requested ids rs) m
        (lookup_entries m (group_requested-Keyed ids rs 0 [] tt)))

module _ (existing : Map String File) (rs : List RankedFile) (P : Content → Type 0) where
  pub All-to_send :
      (es : List (String × Group))
      → All (λ (e : String × Group). P (new_content rs e.1)) es
      → All P (to_send existing rs es)
  All-to_send [] h = tt
  All-to_send (e ∷ es) h = elim (Bool-cases (absent existing e)) [
    | inl p ↦ rw p (h.0, All-to_send es h.1)
    | inr p ↦ rw p (All-to_send es h.1)
  ]

module _ (ids : Map ℕ LayerSource) (existing : Map String File) (rs : List RankedFile) (i : ℕ)
    (r : RankedFile) (at : get_elem? rs i ≡ some r) where
  -- The file is to be served, and has the digest.
  abbrev pub hit : String → Bool
  hit d = is_requested ids r && r.file.digest == d

  holds : (e : String × Group) → Own ids rs e → contains (group_files e.1) i ≡ hit e.0
  holds e own = ap (λ l. contains l i) own ∙ contains-owned ids e.0 rs i r at

  pub content_holds :
      (e : String × Group) → Own ids rs e → contains (files_of (new_content rs e.1)) i ≡ hit e.0
  unfolding new_content content_from
  content_holds e own = holds e own

  pub touches_none :
      (es : List (String × Group))
      → ((d : String) → hit d && present (lookup d existing) ≡ false)
      → All (Own ids rs) es
      → touches existing i es ≡ false
  touches_none [] h own = refl
  touches_none (e ∷ es) h own = ground (arith, h e.0, holds e own.0, touches_none es h own.1)

  pub touches_some :
      (es : List (String × Group)) (e : String × Group)
      → Memᴰ e es
      → hit e.0 ≡ true
      → present (lookup e.0 existing) ≡ true
      → All (Own ids rs) es
      → touches existing i es ≡ true
  touches_some [] e m p q own = elim m [ ]
  touches_some (x ∷ es) e (Memᴰ.head s) p q own =
      subst (λ y. Own ids rs y → touches existing i (y ∷ es) ≡ true) s
        (λ o. ground (arith, holds e o)) own.0
  touches_some (x ∷ es) e (Memᴰ.tail m) p q own = ground (arith, touches_some es e m p q own.1)

  pub Agree-digest :
      (k : ℕ) (es : List (String × Group))
      → ((f : File)
          → is_requested ids r ≡ true
          → lookup r.file.digest existing ≡ some f
          → f.fs_id ≡ k)
      → All (Own ids rs) es
      → Agree existing i k es
  Agree-digest k es h own =
      All-imp (λ e o f p q. ground (arith, h f, holds e o, eq_iff r.file.digest e.0)) es own

  pub to_send_clear :
      (es : List (String × Group))
      → ((d : String) → hit d && not (present (lookup d existing)) ≡ false)
      → All (Own ids rs) es
      → All (λ c. contains (files_of c) i ≡ false) (to_send existing rs es)
  to_send_clear [] h own = tt
  to_send_clear (e ∷ es) h own = elim (Bool-cases (absent existing e)) [
    | inl p ↦ rw p (ground (arith, h e.0, content_holds e own.0), to_send_clear es h own.1)
    | inr p ↦ rw p (to_send_clear es h own.1)
  ]

  pub to_send-Disjoint :
      (es : List (String × Group))
      → Keyed es
      → All (Own ids rs) es
      → Apart (Disjoint i) (to_send existing rs es)
  to_send-Disjoint [] k own = tt
  to_send-Disjoint (e ∷ es) k own = elim (Bool-cases (absent existing e)) [
    | inl p ↦
        rw p (All-to_send existing rs _ es (others es k.0 own.1), to_send-Disjoint es k.1 own.1)
    | inr p ↦ rw p (to_send-Disjoint es k.1 own.1)
  ]
    where
      others :
          (xs : List (String × Group))
          → All (λ (x : String × Group). e.0 ≢ x.0) xs
          → All (Own ids rs) xs
          → All (λ (x : String × Group). Disjoint i (new_content rs e.1) (new_content rs x.1)) xs
      others [] n o = tt
      others (x ∷ xs) n o = (
        λ h. ground (
          arith,
          n.0,
          content_holds e own.0,
          content_holds x o.0,
          eq_iff r.file.digest e.0,
          eq_iff r.file.digest x.0,
        ),
        others xs n.1 o.1,
      )
