-- ===== src/Client/Tracer/Ranks.antt =====
-- What the group of a trace of the group "default" is (client/fs/tracer.go).
use starlight.Prelude.{
  ℕ, ◌+◌, String, ◌≡◌, refl, sym, ap, ◌∙◌, subst, inl, inr, Bool, true, not, List, [], ◌∷◌, arith,
  ◌==◌, nat_comparable, text_comparable, Bool-cases, All, contains, keep, if◌then◌else◌, Map,
  lookup, insert,
}
use starlight.Client.Tracer.{
  OptimizedTraceItem, set_ranks, TraceItem, fresh_items, default_item, default_group, Tracer,
}
use starlight.Client.Tracer.Items.{
  RankedFrom, RankedFrom-set_ranks, All-set_ranks, names, accessed, names-set_ranks, Other,
  Distinct, seen, seen-insert, fresh_items_old, fresh_items_new, contains-fresh_items,
  distinct-fresh_items,
}

Distinct-set_ranks :
    (i : ℕ) (hs : List OptimizedTraceItem) → Distinct hs → Distinct (set_ranks i hs)
unfolding set_ranks
Distinct-set_ranks i [] a = tt
Distinct-set_ranks i (h ∷ hs) a = (
  All-set_ranks (Other h.file_name) (λ b n other. other) (i + 1) hs a.0,
  Distinct-set_ranks (i + 1) hs a.1,
)

default_stacks :
    (visited : Map String Bool) (ts : List TraceItem)
    → All (λ (h : OptimizedTraceItem). h.stack ≡ 0) (fresh_items default_item visited ts)
unfolding default_item
default_stacks visited [] = unfold fresh_items in tt
default_stacks visited (t ∷ ts) = elim (Bool-cases (seen visited t.file_name)) [
  | inl p ↦
      subst (All (λ (h : OptimizedTraceItem). h.stack ≡ 0))
        (sym (fresh_items_old default_item visited t ts p)) (default_stacks visited ts)
  | inr p ↦
      subst (All (λ (h : OptimizedTraceItem). h.stack ≡ 0))
        (sym (fresh_items_new default_item visited t ts p))
        (refl, default_stacks (insert t.file_name true visited) ts)
]

same_name : (t : TraceItem) → (default_item t).file_name ≡ t.file_name
unfolding default_item
same_name t = refl

-- The first occurrence of each name, in order.
unfoldable pub first_names : List String → List String
first_names [] = []
first_names (x ∷ xs) = x ∷ keep (λ y. not (x == y)) (first_names xs)

unseen_names : Map String Bool → List String → List String
unseen_names visited = keep (λ k. not (seen visited k))

-- What is left out first and what is left out then.
unseen_names-keep :
    (visited : Map String Bool) (x : String) (l : List String)
    → seen visited x ≡ true
    → unseen_names visited (keep (λ y. not (x == y)) l) ≡ unseen_names visited l
unfolding unseen_names
unseen_names-keep visited x [] h = refl
unseen_names-keep visited x (y ∷ l) h = elim (Bool-cases (x == y)) [
  | inl p ↦
      let q : seen visited y ≡ true =
        ap (seen visited) (sym ((text_comparable.agrees x y).0 p)) ∙ h in
      rw (p, q) (unseen_names-keep visited x l h)
  | inr p ↦
      rw p (ap (λ r. if not (seen visited y) then y ∷ r else r) (unseen_names-keep visited x l h))
]

unseen_names-insert :
    (visited : Map String Bool) (x : String) (l : List String)
    → unseen_names (insert x true visited) l ≡ unseen_names visited (keep (λ y. not (x == y)) l)
unfolding unseen_names
unseen_names-insert visited x [] = refl
unseen_names-insert visited x (y ∷ l) = elim (Bool-cases (x == y)) [
  | inl p ↦ rw (seen-insert visited x y, p) (unseen_names-insert visited x l)
  | inr p ↦
      rw (seen-insert visited x y, p)
        (ap (λ r. if not (seen visited y) then y ∷ r else r) (unseen_names-insert visited x l))
]

names-fresh_items :
    (visited : Map String Bool) (ts : List TraceItem)
    → names (fresh_items default_item visited ts) ≡ unseen_names visited (first_names (accessed ts))
unfolding unseen_names first_names default_item
names-fresh_items visited [] = unfold fresh_items in refl
names-fresh_items visited (t ∷ ts) = elim (Bool-cases (seen visited t.file_name)) [
  | inl p ↦
      ap names (fresh_items_old default_item visited t ts p)
      ∙ names-fresh_items visited ts
      ∙ sym (unseen_names-keep visited t.file_name (first_names (accessed ts)) p)
      ∙ sym (
          ap
            (λ b.
              if not b
              then t.file_name
                ∷ unseen_names visited
                    (keep (λ y. not (t.file_name == y)) (first_names (accessed ts)))
              else unseen_names visited
                  (keep (λ y. not (t.file_name == y)) (first_names (accessed ts))))
            p)
  | inr p ↦
      ap names (fresh_items_new default_item visited t ts p)
      ∙ ap (λ l. t.file_name ∷ l)
          (names-fresh_items (insert t.file_name true visited) ts
            ∙ unseen_names-insert visited t.file_name (first_names (accessed ts)))
      ∙ sym (
          ap
            (λ b.
              if not b
              then t.file_name
                ∷ unseen_names visited
                    (keep (λ y. not (t.file_name == y)) (first_names (accessed ts)))
              else unseen_names visited
                  (keep (λ y. not (t.file_name == y)) (first_names (accessed ts))))
            p)
]

unseen_none : (l : List String) → unseen_names [] l ≡ l
unfolding unseen_names lookup
unseen_none [] = refl
unseen_none (x ∷ l) = ap (λ r. x ∷ r) (unseen_none l)

-- The group made of one trace of the group "default" has each file of the trace once and no other
-- file, in the order of their first accesses in the trace, ranked from 0 on in that order, and says of
-- every file that it was in layer 0, whichever layer it was read from.
pub default_group_once :
    (trace : Tracer)
    → Distinct (default_group trace).history
      × (names (default_group trace).history ≡ first_names (accessed trace.seq))
      × ((k : String)
          → contains (names (default_group trace).history) k ≡ contains (accessed trace.seq) k)
      × RankedFrom 0 (default_group trace).history
      × All (λ (h : OptimizedTraceItem). h.stack ≡ 0) (default_group trace).history
unfolding default_group lookup
default_group_once trace =
    let items = fresh_items default_item [] trace.seq in
    (
      Distinct-set_ranks 0 items (distinct-fresh_items default_item same_name [] trace.seq),
      names-set_ranks 0 items
          ∙ names-fresh_items [] trace.seq
          ∙ unseen_none (first_names (accessed trace.seq)),
      λ k.
          ap (λ l. contains l k) (names-set_ranks 0 items)
          ∙ contains-fresh_items default_item same_name [] trace.seq k
          ∙ ground arith,
      RankedFrom-set_ranks 0 items,
      All-set_ranks (λ h. h.stack ≡ 0) (λ h n e. e) 0 items (default_stacks [] trace.seq),
    )
