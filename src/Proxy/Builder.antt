-- ===== src/Proxy/Builder.antt =====
-- Which layers the client has and which it lacks (NewBuilder and getUnavailableLayers of
-- proxy/builder.go). A pointer to a layer of the destination is its position there.
pub mod Laws
use starlight.Prelude.{
  ℕ, ◌+◌, String, Bool, true, false, Option, none, some, List, [], ◌∷◌, map, nat_comparable,
  text_comparable, write_all, Map, lookup, insert,
}
use starlight.Proxy.Bundle.{ImageLayer, Image}

pub record Builder : Type 0 where
  pub source : Option Image
  pub destination : Image
  pub unavailable_layers : List ℕ
  pub disable_sorting : Bool

-- `dedup[v.Hash] = true` for each layer of the source
mark_hashes : List ImageLayer → Map String Bool → Map String Bool
mark_hashes [] dedup = dedup
mark_hashes (v ∷ vs) dedup = mark_hashes vs (insert v.hash true dedup)

unavailable_from : Map String Bool → ℕ → List ImageLayer → List ℕ
unavailable_from dedup i [] = []
unavailable_from dedup i (v ∷ vs) = elim (lookup v.hash dedup) [
  | none ↦ i ∷ unavailable_from dedup (i + 1) vs
  | some _ ↦ unavailable_from (insert v.hash true dedup) (i + 1) vs
]

abbrev source_layers : Option Image → List ImageLayer
source_layers none = []
source_layers (some s) = s.layers

pub get_unavailable_layers : Option Image → Image → List ℕ
unfolding mark_hashes unavailable_from
get_unavailable_layers source destination =
    unavailable_from (mark_hashes (source_layers source) []) 0 destination.layers

-- All positions of a list, from `i` on.
abbrev positions : {A : Type 0} → ℕ → List A → List ℕ
positions i [] = []
positions i (x ∷ xs) = i ∷ positions (i + 1) xs

set_available : Bool → ImageLayer → ImageLayer
set_available b l = record l { available = b }

set_source : Option Image → Option Image
unfolding set_available
set_source none = none
set_source (some s) = some (record s { layers = map (set_available true) s.layers })

-- Without a source every layer of the destination is unavailable.
unavailable_of : Option Image → Image → List ℕ
unfolding get_unavailable_layers
unavailable_of none destination = positions 0 destination.layers
unavailable_of (some s) destination = get_unavailable_layers (some s) destination

-- The images are those that getImageByDigest and getImage found.
unfoldable pub new_builder : Option Image → Image → Bool → Builder
unfolding unavailable_of set_source set_available
new_builder source destination disable_sorting =
    let unavailable = unavailable_of source destination in
    record {
      source = set_source source;
      destination = record destination {
        layers = write_all (set_available false) unavailable destination.layers;
      };
      unavailable_layers = unavailable;
      disable_sorting = disable_sorting;
    }
