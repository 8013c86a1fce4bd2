-- ===== src/Examples/Caching.antt =====
-- A layer that two wait for, and a directory of two children (util/common), and a file whose content
-- goes to layer 2 (util/receive/image.go).
use starlight.Prelude.{
  ℕ, zero, suc, String, ◌≡◌, refl, ◌≢◌, ◌↔◌, ◌⊎◌, true, not, none, some, List, [], ◌∷◌, ◌++◌, arith,
  nat_comparable, text_comparable, length, write_all, lookup,
}
use starlight.Examples.DeltaBundle.{app_file}
use starlight.Common.LayerCache.{
  LayerCache, Channel, new_layer_cache, load, evict, refused, sent, close,
}
use starlight.Common.Directory.{TocEntry, is_dir, remove_child, add_child, remove_all_children}
use starlight.Client.Receive.{
  is_referencing_requested_image, is_referencing_local_filesystem, in_payload,
}
use starlight.Common.LayerCache.Waiting.{around_load, evict_none, load_result, channels-around_load}
use starlight.Common.Directory.Links.{Counts, remove_child-add_child, Counts-children}
use starlight.Client.Receive.References.{received_file, one_source, found_in_payload}
use starlight.Proxy.Delta.{set_payload}
use mathlib.Core.Bool.{false≢true}

abbrev empty_cache : LayerCache
empty_cache = new_layer_cache 100 "sha256:2" 3

abbrev fresh : Channel
fresh = record { messages = []; closes = 0 }

channels-around_load_example :
    (around_load
      (refused "unauthorized")
      (0 ∷ [])
      (2 ∷ [])
      empty_cache
      (fresh ∷ fresh ∷ fresh ∷ [])).1
    ≡ write_all close ((0 ∷ []) ++ 2 ∷ []) (fresh ∷ fresh ∷ fresh ∷ [])
unfolding new_layer_cache
channels-around_load_example =
    channels-around_load (refused "unauthorized") (0 ∷ []) (2 ∷ []) empty_cache
      (fresh ∷ fresh ∷ fresh ∷ []) refl refl

load_result_example :
    ((load (sent (1 ∷ 2 ∷ []) none) empty_cache []).0.0.ready ≡ true)
    × (((bytes : List ℕ) × (sent (1 ∷ 2 ∷ []) none ≡ sent bytes none)
          × (length bytes ≡ 3)
          × ((load (sent (1 ∷ 2 ∷ []) none) empty_cache []).1 ≡ none)
          × ((load (sent (1 ∷ 2 ∷ []) none) empty_cache []).0.0.buffer ≡ some bytes))
        ⊎ ((err : String) × ((load (sent (1 ∷ 2 ∷ []) none) empty_cache []).1 ≡ some err)
            × ((load (sent (1 ∷ 2 ∷ []) none) empty_cache []).0.0.buffer ≡ none)))
unfolding new_layer_cache
load_result_example = load_result (sent (1 ∷ 2 ∷ []) none) empty_cache [] refl

evict_none_example : evict 5000 60 (("sha256:2", empty_cache) ∷ []) ≡ ("sha256:2", empty_cache) ∷ []
unfolding new_layer_cache
evict_none_example = evict_none 5000 60 (("sha256:2", empty_cache) ∷ []) (omega arith, tt)

abbrev kind_of : ℕ → String
kind_of zero = "dir"
kind_of (suc _) = "reg"

abbrev etc : TocEntry
etc = record { num_link = 3; children = ("ssl", 0) ∷ ("hosts", 1) ∷ [] }

Counts-children_example :
    Counts kind_of 2 (add_child kind_of "cron" 0 etc)
    × ((other : String) → Counts kind_of 2 (remove_child kind_of other etc))
    × (remove_all_children kind_of etc ≡ record { num_link = 2; children = [] })
unfolding lookup is_dir
Counts-children_example =
    Counts-children kind_of 2 "cron" 0 etc refl
      (refl, ((λ e. false≢true ((text_comparable.agrees "ssl" "hosts").1 e), tt), (tt, tt)))

remove_child-add_child_example : remove_child kind_of "cron" (add_child kind_of "cron" 0 etc) ≡ etc
unfolding lookup
remove_child-add_child_example = remove_child-add_child kind_of "cron" 0 etc refl

one_source_example :
    (is_referencing_requested_image (received_file app_file)).1
    ≡ not (is_referencing_local_filesystem (received_file app_file)).1
one_source_example = one_source (received_file app_file)

abbrev layer_number : ℕ
layer_number = 2

abbrev content_number : ℕ
content_number = 1

found_in_payload_example :
    ((is_referencing_requested_image
          (received_file (set_payload layer_number content_number app_file))
        ≡ (layer_number, true))
      ↔ ((layer_number ≢ 0) ⊎ (app_file.stack ≡ 0)))
    × ((in_payload (received_file (set_payload layer_number content_number app_file)) ≡ true)
        ↔ (content_number ≢ 0))
found_in_payload_example = found_in_payload layer_number content_number app_file refl
