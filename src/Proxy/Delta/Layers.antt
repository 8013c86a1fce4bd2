-- ===== src/Proxy/Delta/Layers.antt =====
-- The layers that `computeDelta` takes for available, after NewBuilder (proxy/builder.go).
use starlight.Prelude.{
  ℕ, ◌≡◌, refl, sym, ◌∙◌, Bool, true, false, Option, none, some, List, [], ◌∷◌, ◌++◌, map,
  append-nil, append_assoc, arith, nat_comparable, text_comparable, if◌then◌else◌, All, contains,
  lookup, lookup-insert, All-write_all, insert,
}
use starlight.Proxy.Delta.{Available, add_available, find_available}
use starlight.Proxy.Builder.{new_builder}
use starlight.Proxy.Bundle.{ImageLayer, LayerSource, Image, from_source}

abbrev pub Lacking : List ImageLayer → Type 0
Lacking = All (λ (l : ImageLayer). l.available ≡ false)

add_available-Lacking :
    (from : LayerSource) (ls : List ImageLayer) (a : Available)
    → Lacking ls
    → add_available from ls a ≡ a
unfolding add_available
add_available-Lacking from [] a h = refl
add_available-Lacking from (l ∷ ls) a h = ground (arith, add_available-Lacking from ls a h.1)

abbrev pub obtained : ImageLayer → ImageLayer
obtained l = record l { available = true }

abbrev pub serials : List ImageLayer → List ℕ
serials ls = map (λ (l : ImageLayer). l.serial) ls

layers-add_available :
    (from : LayerSource) (ls : List ImageLayer) (a : Available)
    → (add_available from (map obtained ls) a).layers ≡ a.layers ++ map obtained ls
unfolding add_available
layers-add_available from [] a = sym (append-nil a.layers)
layers-add_available from (l ∷ ls) a =
    layers-add_available from ls _ ∙ append_assoc a.layers (obtained l ∷ []) (map obtained ls)

ids-add_available :
    (from : LayerSource) (ls : List ImageLayer) (a : Available) (k : ℕ)
    → lookup k (add_available from (map obtained ls) a).ids
      ≡ (if contains (serials ls) k then some from else lookup k a.ids)
unfolding add_available
ids-add_available from [] a k = refl
ids-add_available from (l ∷ ls) a k = ground (
  arith,
  lookup-insert l.serial k from a.ids,
  ids-add_available from ls
      (record { layers = a.layers ++ obtained l ∷ []; ids = insert l.serial from a.ids }) k,
)

destination_lacks :
    (source : Option Image) (d : Image) (b : Bool)
    → Lacking d.layers
    → Lacking (new_builder source d b).destination.layers
unfolding new_builder
destination_lacks source d b h =
    All-write_all _ (λ l. record l { available = false }) (λ l _. refl)
      (new_builder source d b).unavailable_layers d.layers h

-- If no layer of the destination is marked as available at first, as GetLayers returns them, then the
-- builder takes for available exactly the layers of the source image, in their order.
pub find_available-new_builder :
    (s d : Image) (b : Bool) (k : ℕ)
    → Lacking d.layers
    → ((find_available (new_builder (some s) d b)).layers ≡ map obtained s.layers)
      × (lookup k (find_available (new_builder (some s) d b)).ids
          ≡ (if contains (serials s.layers) k then some from_source else none))
unfolding find_available new_builder lookup
find_available-new_builder s d b k h =
    rw (add_available-Lacking _ _ _ (destination_lacks (some s) d b h))
      (layers-add_available _ s.layers _, ids-add_available _ s.layers _ k)

pub find_available_scratch :
    (d : Image) (b : Bool)
    → Lacking d.layers
    → find_available (new_builder none d b) ≡ record { layers = []; ids = [] }
unfolding find_available new_builder
find_available_scratch d b h = add_available-Lacking _ _ _ (destination_lacks none d b h)
