-- ===== src/Proxy/Delta/Resolved.antt =====
-- The whole of `computeDelta`: how the client gets the bytes of each requested file
-- (proxy/builder.go).
use starlight.Prelude.{
  ℕ, String, ◌≡◌, refl, sym, ◌∙◌, Bool, true, false, not, ◌&&◌, Option, none, some, List, [], arith,
  nat_comparable, text_comparable, get_elem?, All, contains, Map, lookup, Keyed, All-perm, All-Memᴰ,
  ap, Bool-cases, Memᴰ-perm, inl, Memᴰ-map, inr, Memᴰ-keep, subst, get_or, Apart-perm, Option-cases,
  MapOrder, Sorter, ◌∷◌, ◌≢◌, lookup-Memᴰ,
}
use starlight.Proxy.Delta.{
  content_from, Layout, set_reference, Group, set_payload, find_references, is_requested, lay_out,
  new_content, deref, blank, group_requested, compute_delta, sort_contents, requested_files_of,
  deduplicate_existing, find_available,
}
use mathlib.Core.List.{Permᴰ, Memᴰ}
use mathlib.Core.Bool.{false≢true}
use text.Mathlib.TextEquality.{eq_iff}
use starlight.Proxy.Bundle.{RankedFile, LayerSource, File, Content, files_of}
use starlight.Proxy.Delta.Grouped.{
  Own, hit, to_send_clear, touches_none, Agree-digest, touches_some, content_holds,
  to_send-Disjoint, All-Own-visit,
}
use starlight.Proxy.Delta.References.{
  to_send, touches, Agree, present, get_elem?-find_references, absent, SameCore-find_references,
  contents-find_references,
}
use starlight.Proxy.Delta.Placement.{untouched, Disjoint, lay_out-PlacedAt, PlacedAt}
use starlight.Proxy.Delta.Requested.{
  digest-owned, extend, lookup-group_requested, owned, contains-owned, group_requested-Keyed,
}
use starlight.Proxy.Database.{Database, get_unique_files}
use starlight.Proxy.Builder.{Builder}
use mathlib.Core.List.Permᴰ

-- The file is in a content of the payload: the content has the digest of the file and lists it, and
-- the file says which content that is and from which layer.
abbrev pub Sent : RankedFile → ℕ → Layout → Type 0
Sent r i l =
    (k : ℕ) × (c : Content) × (get_elem? l.contents k ≡ some c)
    × (contains (files_of c) i ≡ true)
    × (c.digest ≡ r.file.digest)
    × (get_elem? l.requested_files i ≡ some (set_payload c.stack k r))

-- What becomes of a file, by whether it is to be served and by the file the client has for its
-- digest.
abbrev pub Outcome : RankedFile → ℕ → Layout → Bool → Option File → Type 0
Outcome r i l false _ = get_elem? l.requested_files i ≡ some r
Outcome r i l true (some e) = get_elem? l.requested_files i ≡ some (set_reference e.fs_id r)
Outcome r i l true none = Sent r i l

Sent-PlacedAt :
    (r : RankedFile) (i : ℕ) (l : Layout) (h rs : List RankedFile) (c : Content)
    → contains (files_of c) i ≡ true
    → (deref rs c.first_file).file.digest ≡ r.file.digest
    → get_elem? h i ≡ some r
    → PlacedAt 0 l h rs c i
    → Sent r i l
Sent-PlacedAt r i l h rs c has same at (k, c', found, files, stack, digest, pointer) = (
  k,
  c',
  found,
  ap (λ (is : List ℕ). contains is i) files ∙ has,
  digest ∙ same,
  pointer ∙ ground (arith, at, stack),
)

module _ (ids : Map ℕ LayerSource) (existing : Map String File) (rs : List RankedFile) (i : ℕ)
    (r : RankedFile) (at : get_elem? rs i ≡ some r) (es : List (String × Group))
    (own : All (Own ids rs) es) (keyed : Keyed es) (ds : List Content)
    (perm : Permᴰ (to_send existing rs es) ds) where
  abbrev heap : List RankedFile
  heap = (find_references existing es rs []).0

  kept : touches existing i es ≡ false → Agree existing i 0 es → get_elem? heap i ≡ some r
  kept t a = ground (arith, get_elem?-find_references existing i 0 es rs [] a)

  not_served : is_requested ids r ≡ false → Outcome r i (lay_out 0 0 ds heap) false none
  not_served p =
      untouched i ds 0 0 heap (
        All-perm (λ c. contains (files_of c) i ≡ false) perm
          (to_send_clear ids existing rs i r at es (λ d. rw p refl) own))
      ∙ kept (touches_none ids existing rs i r at es (λ d. rw p refl) own)
          (Agree-digest ids existing rs i r at 0 es (λ f q _. absurd (false≢true (sym p ∙ q))) own)

  not_sent :
      (e : File)
      → lookup r.file.digest existing ≡ some e
      → (d : String) → hit ids existing rs i r at d && not (present (lookup d existing)) ≡ false
  not_sent e q d = ground (arith, eq_iff r.file.digest d)

  not_referenced :
      lookup r.file.digest existing ≡ none
      → (d : String) → hit ids existing rs i r at d && present (lookup d existing) ≡ false
  not_referenced q d = ground (arith, eq_iff r.file.digest d)

  own_digest : is_requested ids r ≡ true → hit ids existing rs i r at r.file.digest ≡ true
  own_digest p = ground (arith, eq_iff r.file.digest r.file.digest)

  referenced :
      (e : File) (g : Group)
      → is_requested ids r ≡ true
      → lookup r.file.digest existing ≡ some e
      → Memᴰ (r.file.digest, g) es
      → Outcome r i (lay_out 0 0 ds heap) true (some e)
  referenced e g p q m =
      let found : touches existing i es ≡ true =
        touches_some ids existing rs i r at es (r.file.digest, g) m (own_digest p) (ap present q)
          own in
      let same =
        Agree-digest ids existing rs i r at e.fs_id es
          (λ f _ s. ap (λ (o : Option File). elim o [ none ↦ 0 | some x ↦ x.fs_id ]) (sym s ∙ q))
          own in
      untouched i ds 0 0 heap (
        All-perm (λ c. contains (files_of c) i ≡ false) perm
          (to_send_clear ids existing rs i r at es (not_sent e q) own))
      ∙ ground (arith, get_elem?-find_references existing i e.fs_id es rs [] same, found)

  Disjoint-sym : (a b : Content) → Disjoint i a b → Disjoint i b a
  Disjoint-sym a b d p = elim (Bool-cases (contains (files_of a) i)) [
    | inl q ↦ absurd (false≢true (sym (d q) ∙ p))
    | inr q ↦ q
  ]

  listed :
      (g : Group)
      → lookup r.file.digest existing ≡ none
      → Memᴰ (r.file.digest, g) es
      → Memᴰ (new_content rs g) ds
  listed g q m = Memᴰ-perm perm (
      Memᴰ-map (λ (e : String × Group). new_content rs e.1)
        (Memᴰ-keep (absent existing) (ap (λ o. not (present o)) q) m))

  first_digest :
      (g : Group)
      → Memᴰ (r.file.digest, g) es
      → (deref rs (new_content rs g).first_file).file.digest ≡ r.file.digest
  unfolding new_content content_from
  first_digest g m =
      (subst (All (λ j. (get_or rs j blank).file.digest ≡ r.file.digest))
        (sym (All-Memᴰ (Own ids rs) m own)) (digest-owned ids r.file.digest rs)).0

  sent :
      (g : Group)
      → is_requested ids r ≡ true
      → lookup r.file.digest existing ≡ none
      → Memᴰ (r.file.digest, g) es
      → Outcome r i (lay_out 0 0 ds heap) true none
  sent g p q m =
      let own_g = All-Memᴰ (Own ids rs) m own in
      let c = new_content rs g in
      let has : contains (files_of c) i ≡ true =
        content_holds ids existing rs i r at (r.file.digest, g) own_g ∙ own_digest p in
      let same = SameCore-find_references existing rs es rs [] (λ j. refl) in
      let apart =
        Apart-perm (Disjoint i) Disjoint-sym perm
          (to_send-Disjoint ids existing rs i r at es keyed own) in
      let none_found = touches_none ids existing rs i r at es (not_referenced q) own in
      let before : get_elem? heap i ≡ some r = kept none_found (
        Agree-digest ids existing rs i r at 0 es
          (λ f _ s. absurd (false≢true (ap present (sym q ∙ s)))) own) in
      Sent-PlacedAt r i (lay_out 0 0 ds heap) heap rs c has (first_digest g m) before
        (lay_out-PlacedAt rs i c ds 0 0 heap (listed g q m) has same apart)

  resolved :
      (g : Group)
      → (is_requested ids r ≡ true → Memᴰ (r.file.digest, g) es)
      → Outcome r i (lay_out 0 0 ds heap) (is_requested ids r) (lookup r.file.digest existing)
  resolved g m = elim (Bool-cases (is_requested ids r)) [
    | inr p ↦ rw p (not_served p)
    | inl p ↦ elim (Option-cases (lookup r.file.digest existing)) [
      | inl q ↦ rw (p, q) (sent g p q (m p))
      | inr (e, q) ↦ rw (p, q) (referenced e g p q (m p))
    ]
  ]

abbrev group_or : Option Group → Group
group_or none = record { first_file = 0; more_files = [] }
group_or (some g) = g

-- The files that hold a digest have a group if one of them is to be served.
has_group :
    (ids : Map ℕ LayerSource) (rs : List RankedFile) (i : ℕ) (r : RankedFile)
    → get_elem? rs i ≡ some r
    → is_requested ids r ≡ true
    → let o = lookup r.file.digest (group_requested ids 0 rs []) in o ≡ some (group_or o)
has_group ids rs i r at p = rw (lookup-group_requested ids rs r.file.digest) (
    nonempty (owned ids r.file.digest 0 rs) (
      contains-owned ids r.file.digest rs i r at
      ∙ ground (arith, eq_iff r.file.digest r.file.digest)))
  where
    nonempty :
        (is : List ℕ) → contains is i ≡ true → extend none is ≡ some (group_or (extend none is))
    nonempty [] h = absurd (false≢true h)
    nonempty (j ∷ is) h = refl

module _ (order : MapOrder (String × Group)) (sorter : Sorter Content (λ c. c.rank))
    (avg : List ℕ → ℕ) where
  sort_contents-Perm :
      (b : Bool) (cs : List Content) → Permᴰ cs (sort_contents order sorter avg b cs)
  unfolding sort_contents
  sort_contents-Perm true cs = Permᴰ.refl cs
  sort_contents-Perm false cs = sorter.sort_perm cs

  -- For every file of the requested image, whichever order the map is visited in: a file that needs no
  -- content (no digest, empty, or in a layer the client has) is passed on unchanged; else, if the
  -- client has a file with its digest, it is given the filesystem of that file and nothing else is
  -- changed; else there is a content of the payload that lists it and has its digest, and it is given
  -- the number of that content and the layer the content is unpacked to.
  pub compute_delta-Outcome :
      (db : Database) (b : Builder) (i : ℕ) (r : RankedFile)
      → get_elem? (requested_files_of order sorter avg db b) i ≡ some r
      → let available = find_available b in
        let existing =
          deduplicate_existing available.ids (get_unique_files db available.layers) [] in
        Outcome r i
          (compute_delta order sorter avg db b)
          (is_requested available.ids r)
          (lookup r.file.digest existing)
  unfolding compute_delta
  compute_delta-Outcome db b i r at =
      let available = find_available b in
      let existing = deduplicate_existing available.ids (get_unique_files db available.layers) [] in
      let rs = requested_files_of order sorter avg db b in
      let m = group_requested available.ids 0 rs [] in
      let es = order.visit m in
      let cs = (find_references existing es rs []).1 in
      let perm : Permᴰ (to_send existing rs es)
          (sort_contents order sorter avg b.disable_sorting cs) =
        subst (λ l. Permᴰ l (sort_contents order sorter avg b.disable_sorting cs))
          (contents-find_references existing rs es rs [] (λ j. refl))
          (sort_contents-Perm b.disable_sorting cs) in
      resolved available.ids existing rs i r at es (All-Own-visit order available.ids rs)
        (Apart-perm (λ (x y : String × Group). x.0 ≢ y.0) (λ x y n e. n (sym e))
          (order.visit_perm m) (group_requested-Keyed available.ids rs 0 [] tt))
        _ perm (group_or (lookup r.file.digest m))
        (λ p.
          Memᴰ-perm (order.visit_perm m)
            (lookup-Memᴰ r.file.digest m (has_group available.ids rs i r at p)))
