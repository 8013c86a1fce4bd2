-- ===== src/Client/Tracer/Items.antt =====
-- The items of a group: their names, their ranks, and which were visited before (client/fs/tracer.go).
use starlight.Prelude.{
  ℕ, ◌+◌, ◌≤◌, String, ◌≡◌, refl, sym, ap, ◌∙◌, subst, ◌≢◌, inl, inr, Bool, true, false, not, ◌&&◌,
  ◌||◌, List, [], ◌∷◌, map, arith, ◌==◌, nat_comparable, text_comparable, Bool-cases, All, Apart,
  contains, Map, lookup, insert, lookup-insert,
}
use text.Mathlib.TextEquality.{eq_iff}
use starlight.Client.Tracer.{OptimizedTraceItem, set_ranks, TraceItem, fresh_items}
use starlight.Client.Extract.Unpack.{or_false}
use mathlib.Core.Bool.{false≢true}

abbrev pub RankedFrom : ℕ → List OptimizedTraceItem → Type 0
RankedFrom i [] = Unit
RankedFrom i (h ∷ hs) = (h.rank ≡ i) × RankedFrom (i + 1) hs

abbrev pub Ascends : List OptimizedTraceItem → Type 0
Ascends = Apart (λ (a b : OptimizedTraceItem). a.access ≤ b.access)

pub RankedFrom-set_ranks : (i : ℕ) (hs : List OptimizedTraceItem) → RankedFrom i (set_ranks i hs)
unfolding set_ranks
RankedFrom-set_ranks i [] = tt
RankedFrom-set_ranks i (h ∷ hs) = (refl, RankedFrom-set_ranks (i + 1) hs)

module _ (P : OptimizedTraceItem → Type 0)
    (same : (h : OptimizedTraceItem) (n : ℕ) → P h → P (record h { rank = n })) where
  pub All-set_ranks : (i : ℕ) (hs : List OptimizedTraceItem) → All P hs → All P (set_ranks i hs)
  unfolding set_ranks
  All-set_ranks i [] a = tt
  All-set_ranks i (h ∷ hs) a = (same h i a.0, All-set_ranks (i + 1) hs a.1)

pub Ascends-set_ranks :
    (i : ℕ) (hs : List OptimizedTraceItem) → Ascends hs → Ascends (set_ranks i hs)
unfolding set_ranks
Ascends-set_ranks i [] a = tt
Ascends-set_ranks i (h ∷ hs) a = (
  All-set_ranks (λ b. h.access ≤ b.access) (λ b n le. le) (i + 1) hs a.0,
  Ascends-set_ranks (i + 1) hs a.1,
)

abbrev pub names : List OptimizedTraceItem → List String
names hs = map (λ (h : OptimizedTraceItem). h.file_name) hs

abbrev pub accessed : List TraceItem → List String
accessed ts = map (λ (t : TraceItem). t.file_name) ts

pub names-set_ranks : (i : ℕ) (hs : List OptimizedTraceItem) → names (set_ranks i hs) ≡ names hs
unfolding set_ranks
names-set_ranks i [] = refl
names-set_ranks i (h ∷ hs) = ap (λ l. h.file_name ∷ l) (names-set_ranks (i + 1) hs)

abbrev pub Other : String → OptimizedTraceItem → Type 0
Other k h = k ≢ h.file_name

-- No file comes twice.
abbrev pub Distinct : List OptimizedTraceItem → Type 0
Distinct = Apart (λ (a b : OptimizedTraceItem). a.file_name ≢ b.file_name)

abbrev pub seen : Map String Bool → String → Bool
seen visited k = or_false (lookup k visited)

pub seen-insert :
    (visited : Map String Bool) (k j : String)
    → seen (insert k true visited) j ≡ (k == j || seen visited j)
seen-insert visited k j = ground (arith, lookup-insert k j true visited)

module _ (make : TraceItem → OptimizedTraceItem) (visited : Map String Bool) (t : TraceItem)
    (ts : List TraceItem) where
  pub fresh_items_old :
      seen visited t.file_name ≡ true
      → fresh_items make visited (t ∷ ts) ≡ fresh_items make visited ts
  unfolding fresh_items
  fresh_items_old p = rw (fresh_items, p) refl

  pub fresh_items_new :
      seen visited t.file_name ≡ false
      → fresh_items make visited (t ∷ ts)
        ≡ make t ∷ fresh_items make (insert t.file_name true visited) ts
  unfolding fresh_items
  fresh_items_new p = rw (fresh_items, p) refl

module _ (make : TraceItem → OptimizedTraceItem)
    (kept : (t : TraceItem) → (make t).file_name ≡ t.file_name) where
  pub contains-fresh_items :
      (visited : Map String Bool) (ts : List TraceItem) (k : String)
      → contains (names (fresh_items make visited ts)) k
        ≡ (contains (accessed ts) k && not (seen visited k))
  contains-fresh_items visited [] k = unfold fresh_items in refl
  contains-fresh_items visited (t ∷ ts) k = elim (Bool-cases (seen visited t.file_name)) [
    | inl p ↦
        ap (λ l. contains (names l) k) (fresh_items_old make visited t ts p)
        ∙ contains-fresh_items visited ts k
        ∙ ground (arith, p, eq_iff t.file_name k)
    | inr p ↦
        let visited' = insert t.file_name true visited in
        ap (λ l. contains (names l) k) (fresh_items_new make visited t ts p)
        ∙ ground (
          arith,
          p,
          kept t,
          eq_iff t.file_name k,
          seen-insert visited t.file_name k,
          contains-fresh_items visited' ts k,
        )
  ]

  -- No file that was visited before comes again.
  unseen :
      (visited : Map String Bool) (ts : List TraceItem) (k : String)
      → seen visited k ≡ true
      → All (Other k) (fresh_items make visited ts)
  unseen visited [] k s = unfold fresh_items in tt
  unseen visited (t ∷ ts) k s = elim (Bool-cases (seen visited t.file_name)) [
    | inl p ↦
        subst (All (Other k)) (sym (fresh_items_old make visited t ts p)) (unseen visited ts k s)
    | inr p ↦ subst (All (Other k)) (sym (fresh_items_new make visited t ts p)) (
      λ e. false≢true (sym p ∙ ap (seen visited) (sym (e ∙ kept t)) ∙ s),
      unseen (insert t.file_name true visited) ts k
          (seen-insert visited t.file_name k ∙ ground (arith, s)),
    )
  ]

  pub distinct-fresh_items :
      (visited : Map String Bool) (ts : List TraceItem)
      → Apart
          (λ (a b : OptimizedTraceItem). a.file_name ≢ b.file_name)
          (fresh_items make visited ts)
  distinct-fresh_items visited [] = unfold fresh_items in tt
  distinct-fresh_items visited (t ∷ ts) = elim (Bool-cases (seen visited t.file_name)) [
    | inl p ↦
        subst Distinct (sym (fresh_items_old make visited t ts p)) (distinct-fresh_items visited ts)
    | inr p ↦ subst Distinct (sym (fresh_items_new make visited t ts p)) (
      subst (λ k. All (Other k) (fresh_items make (insert t.file_name true visited) ts))
          (sym (kept t))
          (unseen (insert t.file_name true visited) ts t.file_name (
            seen-insert visited t.file_name t.file_name
            ∙ ground (arith, eq_iff t.file_name t.file_name))),
      distinct-fresh_items (insert t.file_name true visited) ts,
    )
  ]
