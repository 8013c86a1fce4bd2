-- ===== src/Examples/Extracting.antt =====
-- An image of two layers that is read into an empty database, and one whose layer is in no seekable
-- format (proxy/extractor.go).
use starlight.Prelude.{
  lookup, insert, ℕ, ◌≡◌, refl, true, some, none, [], ◌∷◌, arith, nat_comparable, text_comparable,
  ok, error, message, Error, get_elem?, String, Option, Bool, ap, false, ◌==◌,
}
use starlight.Examples.Orders.{in_order}
use starlight.Proxy.Bundle.{File}
use starlight.Proxy.Catalog.{get_image, get_image_by_digest, find_image}
use starlight.Proxy.Database.Writing.{insert_layer, insert_files}
use starlight.Proxy.Database.Writing.Laws.{Fit}
use starlight.Proxy.Extractor.{
  Schedule, SourceLayer, SourceImage, Extraction, Toc, save_layers, listed, save_toc_per_image,
  platform_of, add_chunks,
}
use starlight.Proxy.Extractor.Failing.{Described, save_toc_per_image_stuck}
use starlight.Proxy.Extractor.Stored.{Readable, Held}
use starlight.Proxy.Extractor.Complete.{save_toc_per_image-Held}
use mathlib.Core.Bool.{false≢true}

-- Both lookups come before either commit.
abbrev at_once : Schedule
at_once = record { order = in_order; lag = λ idx. idx }

abbrev empty_tables : Extraction
empty_tables = record {
  catalog = record { images = []; tags = []; next_id = 1 };
  tables = record { database = record { layers = []; filesystems = []; files = [] }; next_fs = 1 };
}

abbrev motd : File
motd = record {
  name = "etc/motd";
  digest = "sha256:9";
  size = 12;
  offset = 40;
  chunk_offset = 0;
  chunk_size = 0;
  compressed_size = 20;
  parsing_chunks = [];
  fs_id = 0;
}

abbrev contents : Toc
contents = record {
  entries = ("etc/motd", motd) ∷ [];
  chunks =
      (
        "etc/motd",
        record { offset = 40; chunk_offset = 0; chunk_size = 12; compressed_size = 20 } ∷ [],
      )
      ∷ [];
}

abbrev no_files : Toc
no_files = record { entries = []; chunks = [] }

abbrev first_layer : SourceLayer
first_layer = record { size = some 60; digest = some "sha256:a"; toc = some contents }

abbrev second_layer : SourceLayer
second_layer = record { size = some 30; digest = some "sha256:b"; toc = some no_files }

abbrev unreadable : SourceLayer
unreadable = record { size = some 30; digest = some "sha256:c"; toc = none }

abbrev image_with : SourceLayer → SourceImage
image_with l = record {
  digest = some "sha256:0";
  config = true;
  manifest_layers = some 2;
  layers = some (first_layer ∷ l ∷ []);
  platform = some "linux/amd64";
}

abbrev described : (l : SourceLayer) → Described (image_with l) "sha256:0" 2
described l = record { has_digest = refl; has_config = refl; has_manifest = refl }

first_layer-Readable : Readable first_layer
unfolding add_chunks lookup insert
first_layer-Readable = record {
  size = 60;
  digest = "sha256:a";
  toc = contents;
  buffer =
      (
        "etc/motd",
        record motd {
          parsing_chunks =
              record { offset = 40; chunk_offset = 0; chunk_size = 12; compressed_size = 20 } ∷ [];
        },
      )
      ∷ [];
  has_size = refl;
  has_digest = refl;
  has_toc = refl;
  reads = refl;
}

second_layer-Readable : Readable second_layer
unfolding add_chunks
second_layer-Readable = record {
  size = 30;
  digest = "sha256:b";
  toc = no_files;
  buffer = [];
  has_size = refl;
  has_digest = refl;
  has_toc = refl;
  reads = refl;
}

abbrev is_first : Option String → Bool
is_first none = false
is_first (some d) = d == "sha256:b"

empty_tables-Fit : Fit empty_tables.tables
empty_tables-Fit = record { positive = omega arith; below = tt; own = tt }

save_toc_per_image-Held_example :
    (y : Extraction) × (save_toc_per_image at_once "redis" "7"
        (image_with second_layer)
        empty_tables
      ≡ (y, ok tt))
    × (get_image "redis" "7" (platform_of (some "linux/amd64")) y.catalog ≡ some 1)
    × (get_image_by_digest "redis" "sha256:0" y.catalog ≡ some 1)
    × ((i : ℕ) (l : SourceLayer)
        → get_elem? (first_layer ∷ second_layer ∷ []) i ≡ some l
        → Held y.tables.database 1 i l)
unfolding find_image
save_toc_per_image-Held_example =
    save_toc_per_image-Held at_once "redis" "7" "sha256:0" 2 (image_with second_layer)
      (first_layer ∷ second_layer ∷ []) empty_tables (described second_layer) refl
      (first_layer-Readable, (second_layer-Readable, tt))
      ((λ q z. absurd (false≢true (ap is_first q)), tt), (tt, tt)) empty_tables-Fit refl
      (omega arith) tt

save_toc_per_image_stuck_example :
    (y : Extraction) × (save_toc_per_image at_once "redis" "7" (image_with unreadable) empty_tables
      ≡ (y, error (message "failed to read the layer")))
    × (get_image_by_digest "redis" "sha256:0" y.catalog ≡ none)
    × ((again : Schedule) (other : String) (next : SourceImage)
        → next.digest ≡ some "sha256:0"
        → (f : Error) × (save_toc_per_image again "redis" other next y ≡ (y, error f)))
unfolding find_image save_layers listed insert_layer insert_files in_order add_chunks lookup
save_toc_per_image_stuck_example =
    save_toc_per_image_stuck at_once "redis" "7" "sha256:0" 2 (image_with unreadable)
      (message "failed to read the layer") empty_tables (described unreadable) refl (omega arith)
      refl
