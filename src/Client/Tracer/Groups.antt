-- ===== src/Client/Tracer/Groups.antt =====
-- What the group made of several traces is (client/fs/tracer.go).
use starlight.Prelude.{
  ℕ, ◌-◌, String, ◌≡◌, refl, sym, ap, ◌∙◌, ◌||◌, List, [], ◌∷◌, ◌++◌, map, arith, ◌==◌,
  nat_comparable, text_comparable, contains, Map, lookup, Sorter,
}
use mathlib.Core.List.{Permᴰ}
use starlight.Client.Tracer.{
  collect_history, group_item, or_zero, earliest, index_images, named_group, fresh_items, Tracer,
  TraceItem, OptimizedTraceItem,
}
use starlight.Client.Tracer.Items.{
  accessed, names, Ascends, RankedFrom, contains-fresh_items, Ascends-set_ranks,
  RankedFrom-set_ranks, names-set_ranks,
}
use mathlib.Core.Path.{ap₂}

-- The files of all traces.
abbrev pub accessed_in : List Tracer → List String
accessed_in [] = []
accessed_in (t ∷ ts) = accessed t.seq ++ accessed_in ts

name-group_item :
    (offset source : ℕ) (t : TraceItem) → (group_item offset source t).file_name ≡ t.file_name
unfolding group_item
name-group_item offset source t = refl

module _ (k : String) where
  contains-append : (xs ys : List String) → contains (xs ++ ys) k ≡ (contains xs k || contains ys k)
  contains-append [] ys = refl
  contains-append (x ∷ xs) ys = ground (arith, contains-append xs ys)

  names-append : (xs ys : List OptimizedTraceItem) → names (xs ++ ys) ≡ names xs ++ names ys
  names-append [] ys = refl
  names-append (x ∷ xs) ys = ap (λ l. x.file_name ∷ l) (names-append xs ys)

  contains-perm :
      {xs ys : List OptimizedTraceItem}
      → Permᴰ xs ys
      → contains (names xs) k ≡ contains (names ys) k
  contains-perm Permᴰ.nil = refl
  contains-perm (Permᴰ.cons e p) =
      ap₂ (λ x y. x == k || y) (ap (λ (h : OptimizedTraceItem). h.file_name) e) (contains-perm p)
  contains-perm (Permᴰ.swap e f) = ground (
    arith,
    ap (λ (h : OptimizedTraceItem). h.file_name) e,
    ap (λ (h : OptimizedTraceItem). h.file_name) f,
  )
  contains-perm (Permᴰ.trans p q) = contains-perm p ∙ contains-perm q

  contains-collect_history :
      (start : ℕ) (images : Map String ℕ) (ts : List Tracer)
      → contains (names (collect_history start images ts)) k ≡ contains (accessed_in ts) k
  unfolding collect_history lookup
  contains-collect_history start images [] = refl
  contains-collect_history start images (t ∷ ts) =
      let offset = t.start_time - start in
      let source = or_zero (lookup t.image images) in
      let make = group_item offset source in
      let items = fresh_items make [] t.seq in
      let rest = collect_history start images ts in
      ap (λ l. contains l k) (names-append items rest)
      ∙ contains-append (names items) (names rest)
      ∙ ap₂ (λ x y. x || y)
          (contains-fresh_items make (λ i. name-group_item offset source i) [] t.seq k
            ∙ ground arith)
          (contains-collect_history start images ts)
      ∙ sym (contains-append (accessed t.seq) (accessed_in ts))

-- The group made of all traces of a named group is in ascending order of the time of access and
-- ranked from 0 on in that order, and has the files of the traces and no other.
pub named_group-Ascends :
    (by_text : List String → List String) (by_access : Sorter OptimizedTraceItem (λ h. h.access))
    (traces : List Tracer)
    → Ascends (named_group by_text by_access traces).history
      × RankedFrom 0 (named_group by_text by_access traces).history
      × ((k : String)
          → contains (names (named_group by_text by_access traces).history) k
            ≡ contains (accessed_in traces) k)
unfolding named_group
named_group-Ascends by_text by_access traces =
    let images = index_images 0 (by_text (map (λ (t : Tracer). t.image) traces)) [] in
    let items = collect_history (earliest traces) images traces in
    (
      Ascends-set_ranks 0 (by_access.sort items) (by_access.sort_ascends items),
      RankedFrom-set_ranks 0 (by_access.sort items),
      λ k.
          ap (λ l. contains l k) (names-set_ranks 0 (by_access.sort items))
          ∙ sym (contains-perm k (by_access.sort_perm items))
          ∙ contains-collect_history k (earliest traces) images traces,
    )
