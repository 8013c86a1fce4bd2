-- ===== src/Examples/DeltaBundle.antt =====
-- The delta from an image with one layer to one with two, of three files, and the theorems on it
-- (proxy/builder.go).
use starlight.Prelude.{
  ℕ, String, ◌≡◌, refl, false, none, some, List, [], ◌∷◌, map, nat_comparable, text_comparable,
  get_or, contains, lookup, Sorter, insert, Map, All, arith,
}
use starlight.Proxy.Database.{get_files_with_ranks, get_unique_files, get_layers, Database, FileRow}
use mathlib.Core.List.{Memᴰ}
use starlight.Examples.Orders.{in_order, by_insertion}
use starlight.Proxy.Bundle.{File, Image, from_source, ImageLayer, Content, LayerSource, RankedFile}
use starlight.Proxy.Builder.{Builder, get_unavailable_layers, new_builder}
use starlight.Proxy.Delta.{
  find_available, requested_files_of, blank, compute_delta, Layout, group_requested,
  deduplicate_existing,
}
use starlight.Proxy.Builder.Laws.{missing, hashes, get_unavailable_layers-missing}
use starlight.Proxy.Delta.Layers.{obtained, find_available-new_builder}
use starlight.Proxy.Delta.Resolved.{Sent, compute_delta-Outcome}
use starlight.Proxy.Delta.Order.{Ascends, compute_delta-Ascends, compute_delta-Contiguous}
use starlight.Proxy.Delta.Payload.{Contiguous, payload_bytes}
use starlight.Proxy.Delta.Existing.{Reaches, deduplicate_existing_newest}
use starlight.Proxy.Delta.Requested.{extend, owned, lookup-group_requested}

abbrev pub entry : String → String → ℕ → File
entry name digest fs = record {
  name = name;
  digest = digest;
  size = 5;
  offset = 1;
  chunk_offset = 0;
  chunk_size = 5;
  compressed_size = 3;
  parsing_chunks = [];
  fs_id = fs;
}

abbrev base_entry : File
base_entry = entry "bin/sh" "sha256:aaaaaaaaaaaaaaaa" 1

abbrev pub app_entry : File
app_entry = entry "app" "sha256:bbbbbbbbbbbbbbbb" 2

abbrev pub app_file : RankedFile
app_file = record {
  file = app_entry;
  rank = 4;
  stack = 3;
  reference_fs_id = 0;
  reference_stack = 0;
  payload_order = 0;
}

abbrev row : File → List ℕ → FileRow
row f order = record { hash = f.digest; fs = f.fs_id; file = f.name; order = order; metadata = f }

-- Layer 1 is in both images; layer 2 has a copy of its file, and layers 2 and 3 have a new one.
abbrev tables : Database
tables = record {
  layers =
      record { size = 9; image = 7; stack_index = 0; layer = 1 }
      ∷ record { size = 9; image = 8; stack_index = 1; layer = 3 }
      ∷ record { size = 9; image = 8; stack_index = 0; layer = 2 }
      ∷ [];
  filesystems =
      record { id = 1; digest = "sha256:1"; size = 9 }
      ∷ record { id = 2; digest = "sha256:2"; size = 9 }
      ∷ record { id = 3; digest = "sha256:3"; size = 9 }
      ∷ [];
  files =
      row base_entry []
      ∷ row (entry "bin/bash" "sha256:aaaaaaaaaaaaaaaa" 2) []
      ∷ row app_entry (4 ∷ [])
      ∷ row (entry "app2" "sha256:bbbbbbbbbbbbbbbb" 3) []
      ∷ row (entry "lib" "sha256:cccccccccccccccc" 3) (2 ∷ [])
      ∷ [];
}

abbrev layer : ℕ → ℕ → String → ImageLayer
layer stack serial hash = record {
  stack_index = stack;
  uncompressed_size = 9;
  serial = serial;
  hash = hash;
  available = false;
  blob = none;
}

abbrev old_image : Image
old_image = record { serial = 7; layers = layer 0 1 "sha256:1" ∷ [] }

abbrev new_image : Image
new_image = record { serial = 8; layers = layer 0 2 "sha256:2" ∷ layer 1 3 "sha256:3" ∷ [] }

abbrev average : List ℕ → ℕ
average [] = 0
average (x ∷ _) = x

abbrev request : Builder
request = new_builder (some old_image) new_image false

abbrev sort_rank : Sorter Content (λ c. c.rank)
sort_rank = by_insertion (λ (c : Content). c.rank)

new_image_found : get_layers tables 8 ≡ some new_image.layers
unfolding get_layers
new_image_found = refl

get_unavailable_layers-missing_example :
    get_unavailable_layers (some old_image) new_image
    ≡ missing (contains (hashes old_image.layers)) 0 new_image.layers
get_unavailable_layers-missing_example = get_unavailable_layers-missing (some old_image) new_image

find_available-new_builder_example :
    ((find_available request).layers ≡ map obtained old_image.layers)
    × (lookup 1 (find_available request).ids ≡ some from_source)
find_available-new_builder_example =
    find_available-new_builder old_image new_image false 1 (refl, (refl, tt))

abbrev delta : Layout
delta = compute_delta in_order sort_rank average tables request

compute_delta-Outcome_example :
    Sent (get_or (requested_files_of in_order sort_rank average tables request) 3 blank) 3 delta
unfolding requested_files_of new_builder get_files_with_ranks compute_delta lookup insert
    get_unique_files
compute_delta-Outcome_example =
    compute_delta-Outcome in_order sort_rank average tables request 3 _ refl

compute_delta-Ascends_example : Ascends delta.contents
unfolding new_builder
compute_delta-Ascends_example = compute_delta-Ascends in_order sort_rank average tables request refl

compute_delta-Contiguous_example :
    Contiguous 0 delta.contents × (delta.body_length ≡ payload_bytes delta.contents)
unfolding requested_files_of new_builder get_files_with_ranks compute_delta lookup insert
    get_unique_files in_order by_insertion
compute_delta-Contiguous_example =
    compute_delta-Contiguous in_order sort_rank average tables request (omega arith)

abbrev source_ids : Map ℕ LayerSource
source_ids = (1, from_source) ∷ (4, from_source) ∷ []

abbrev existing_entries : List File
existing_entries = base_entry ∷ entry "sh" "sha256:aaaaaaaaaaaaaaaa" 4 ∷ []

deduplicate_existing_newest_example :
    All
      (λ (f : File).
        Reaches f.fs_id (lookup f.digest (deduplicate_existing source_ids existing_entries [])))
      existing_entries
    × ((d : String) (e : File)
        → lookup d (deduplicate_existing source_ids existing_entries []) ≡ some e
        → Memᴰ e existing_entries × (e.digest ≡ d))
unfolding lookup
deduplicate_existing_newest_example =
    deduplicate_existing_newest source_ids existing_entries (refl, (refl, tt))

lookup-group_requested_example :
    lookup app_entry.digest (
      group_requested source_ids 0
        (requested_files_of in_order sort_rank average tables request)
        [])
    ≡ extend none (
        owned source_ids app_entry.digest 0
          (requested_files_of in_order sort_rank average tables request))
lookup-group_requested_example =
    lookup-group_requested source_ids (requested_files_of in_order sort_rank average tables request)
      app_entry.digest
