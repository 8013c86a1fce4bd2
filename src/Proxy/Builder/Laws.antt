-- ===== src/Proxy/Builder/Laws.antt =====
-- What NewBuilder guarantees of the layers (proxy/builder.go).
use starlight.Proxy.Builder.{get_unavailable_layers, mark_hashes, unavailable_from, source_layers}
use starlight.Prelude.{
  Option, String, List, Bool, false, ℕ, map, Map, lookup, some, ◌∷◌, ◌≡◌, true, ◌+◌, contains,
  insert, if◌then◌else◌, ◌||◌, Option-cases, arith, inl, lookup-insert, inr, nat_comparable,
  text_comparable, none, [], refl, ◌∙◌,
}
use starlight.Proxy.Bundle.{ImageLayer, Image}
use text.Mathlib.TextEquality.{eq_iff}

abbrev has : Option Bool → Bool
has none = false
has (some _) = true

-- The positions, from `i` on, of the layers whose hash fails the test.
abbrev pub missing : (String → Bool) → ℕ → List ImageLayer → List ℕ
missing q i [] = []
missing q i (v ∷ vs) = let rest = missing q (i + 1) vs in if q v.hash then rest else i ∷ rest

abbrev pub hashes : List ImageLayer → List String
hashes ls = map (λ (l : ImageLayer). l.hash) ls

has-mark_hashes :
    (ls : List ImageLayer) (dedup : Map String Bool) (k : String)
    → has (lookup k (mark_hashes ls dedup)) ≡ (contains (hashes ls) k || has (lookup k dedup))
unfolding mark_hashes
has-mark_hashes [] dedup k = refl
has-mark_hashes (l ∷ ls) dedup k =
    ground
      (arith, has-mark_hashes ls (insert l.hash true dedup) k, lookup-insert l.hash k true dedup)

-- Marking a hash again changes nothing.
has-insert :
    (k j : String) (b : Bool) (dedup : Map String Bool)
    → lookup k dedup ≡ some b
    → has (lookup j (insert k true dedup)) ≡ has (lookup j dedup)
has-insert k j b dedup h = ground (arith, lookup-insert k j true dedup, eq_iff k j)

unavailable_from-missing :
    (vs : List ImageLayer) (dedup : Map String Bool) (q : String → Bool) (i : ℕ)
    → ((k : String) → has (lookup k dedup) ≡ q k)
    → unavailable_from dedup i vs ≡ missing q i vs
unfolding unavailable_from
unavailable_from-missing [] dedup q i h = refl
unavailable_from-missing (v ∷ vs) dedup q i h = elim (Option-cases (lookup v.hash dedup)) [
  | inl e ↦ ground (arith, h v.hash, unavailable_from-missing vs dedup q (i + 1) h)
  | inr (b, e) ↦ ground (
    arith,
    h v.hash,
    unavailable_from-missing vs _ q (i + 1) (λ k. has-insert v.hash k b dedup e ∙ h k),
  )
]

-- The layers that the client lacks are the layers of the destination whose hash no layer of the
-- source has, in their order, each at its position; of two layers with one hash both are listed.
pub get_unavailable_layers-missing :
    (source : Option Image) (destination : Image)
    → get_unavailable_layers source destination
      ≡ missing (contains (hashes (source_layers source))) 0 destination.layers
unfolding get_unavailable_layers lookup
get_unavailable_layers-missing source destination =
    unavailable_from-missing destination.layers _ _ 0 (marked (source_layers source))
  where
    marked :
        (ls : List ImageLayer) (k : String)
        → has (lookup k (mark_hashes ls [])) ≡ contains (hashes ls) k
    marked ls k = ground (arith, has-mark_hashes ls [] k)
