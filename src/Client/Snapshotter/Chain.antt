-- ===== src/Client/Snapshotter/Chain.antt =====
-- The chain of a snapshot's parents is followed to its end (`getFsStack` of
-- client/snapshotter/plugin.go).
use starlight.Prelude.{
  ℕ, zero, suc, ◌+◌, ◌<◌, String, ◌≡◌, refl, sym, ◌∙◌, ◌≢◌, inl, inr, Option, none, some, List, [],
  ◌∷◌, arith, ◌==◌, nat_comparable, text_comparable, Bool-cases, Outcome, ok, error, panic,
}
use starlight.Client.Mounting.{Info}
use starlight.Client.Snapshotter.{GetInfo, SnapshotItem, get_fs_stack, parent_item, prepend}
use mathlib.Core.Bool.{false≢true}

-- A stack is a snapshot's ancestors: each is what the store has under the parent's name of the one
-- before, and the last has no parent.
abbrev pub Ancestors : GetInfo → Info → List SnapshotItem → Type 0
Ancestors get_info cur [] = cur.parent ≡ ""
Ancestors get_info cur (si ∷ stack) =
    (cur.parent ≢ "")
    × (get_info cur.parent ≡ ok (si.ss_id, si.inf))
    × Ancestors get_info si.inf stack

-- What the walk answers when it ends.
abbrev pub Walked : GetInfo → Info → Option (Outcome (List SnapshotItem)) → Type 0
Walked get_info cur none = ⊥
Walked get_info cur (some (ok stack)) = Ancestors get_info cur stack
Walked get_info cur (some (error e)) = Unit
Walked get_info cur (some panic) = Unit

module _ (get_info : GetInfo) (created : String → ℕ) where
  prepend-Walked :
      (cur : Info) (item : SnapshotItem)
      → cur.parent ≢ ""
      → get_info cur.parent ≡ ok (item.ss_id, item.inf)
      → (r : Option (Outcome (List SnapshotItem))) → Walked get_info item.inf r
      → Walked get_info cur (prepend item r)
  unfolding prepend
  prepend-Walked cur item n e none h = h
  prepend-Walked cur item n e (some (ok stack)) h = (n, e, h)
  prepend-Walked cur item n e (some (error _)) h = tt
  prepend-Walked cur item n e (some panic) h = tt

  parent-Walked :
      (fuel : ℕ) (cur : Info)
      → cur.parent ≢ ""
      → (rest : (id : String) (inf : Info)
          → get_info cur.parent ≡ ok (id, inf)
          → Walked get_info inf (get_fs_stack fuel get_info inf))
      → (r : Outcome (String × Info)) → get_info cur.parent ≡ r
      → Walked get_info cur (parent_item r (get_fs_stack fuel get_info))
  unfolding parent_item
  parent-Walked fuel cur n rest (error e) q = tt
  parent-Walked fuel cur n rest panic q = tt
  parent-Walked fuel cur n rest (ok (id, inf)) q =
      prepend-Walked cur (record { ss_id = id; inf = inf }) n q (get_fs_stack fuel get_info inf)
        (rest id inf q)

  module _
      (older : (name id : String) (inf : Info)
        → get_info name ≡ ok (id, inf)
        → inf.parent ≢ ""
        → created inf.parent < created name) where
    walk :
        (fuel : ℕ) (cur : Info)
        → (cur.parent ≢ "" → created cur.parent + 1 < fuel)
        → 0 < fuel
        → Walked get_info cur (get_fs_stack fuel get_info cur)
    unfolding get_fs_stack
    walk zero cur enough h = absurd (omega arith)
    walk (suc fuel) cur enough h = elim (Bool-cases (cur.parent == "")) [
      | inl p ↦ rw p ((text_comparable.agrees cur.parent "").0 p)
      | inr p ↦
          let n : cur.parent ≢ "" =
            λ q. false≢true (sym p ∙ (text_comparable.agrees cur.parent "").1 q) in
          rw p (
            parent-Walked fuel cur n
              (λ id inf q.
                walk fuel inf (λ m. omega (arith, enough n, older cur.parent id inf q m))
                  (omega (arith, enough n)))
              (get_info cur.parent) refl)
    ]

-- If every snapshot of the store was created after its parent, then the walk up from a snapshot ends,
-- within two rounds more than the number that its parent was created as. When it answers a stack,
-- that is the list of the snapshot's ancestors, each what the store has under the parent's name of
-- the one before, up to one without parent.
pub get_fs_stack-Walked :
    (get_info : GetInfo) (created : String → ℕ) (cur : Info)
    (older : (name id : String) (inf : Info)
      → get_info name ≡ ok (id, inf)
      → inf.parent ≢ ""
      → created inf.parent < created name)
    → Walked get_info cur (get_fs_stack (created cur.parent + 2) get_info cur)
get_fs_stack-Walked get_info created cur older =
    walk get_info created older (created cur.parent + 2) cur (λ n. omega arith) (omega arith)
