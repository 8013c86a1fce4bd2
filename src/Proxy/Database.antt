-- ===== src/Proxy/Database.antt =====
-- The queries of the metadata database (proxy/database.go) on tables held as lists. A query without
-- an order lists its rows in the order of the table; the theorems hold for every table.
pub mod Writing
use starlight.Prelude.{
  ℕ, String, false, not, ◌&&◌, Option, none, some, List, [], ◌∷◌, ◌++◌, map, ltb, ◌==◌,
  nat_comparable, text_comparable, if◌then◌else◌, keep, contains,
}
use starlight.Proxy.Bundle.{File, RankedFile, ImageLayer, max_float64}

pub record LayerRow : Type 0 where
  pub size : ℕ
  pub image : ℕ
  pub stack_index : ℕ
  pub layer : ℕ

pub record FilesystemRow : Type 0 where
  pub id : ℕ
  pub digest : String
  pub size : ℕ

-- `order` is empty where the column is null.
pub record FileRow : Type 0 where
  pub hash : String
  pub fs : ℕ
  pub file : String
  pub order : List ℕ
  pub metadata : File

pub record Database : Type 0 where
  pub layers : List LayerRow
  pub filesystems : List FilesystemRow
  pub files : List FileRow

-- ORDER BY "stackIndex" ASC
by_stack : LayerRow → List LayerRow → List LayerRow
by_stack r [] = r ∷ []
by_stack r (s ∷ rows) =
    if ltb s.stack_index r.stack_index then s ∷ by_stack r rows else r ∷ s ∷ rows

order_by_stack : List LayerRow → List LayerRow
unfolding by_stack
order_by_stack [] = []
order_by_stack (r ∷ rows) = by_stack r (order_by_stack rows)

unfoldable pub image_rows : Database → ℕ → List LayerRow
unfolding order_by_stack
image_rows d serial = order_by_stack (keep (λ r. r.image == serial) d.layers)

pub find_filesystem : List FilesystemRow → ℕ → Option FilesystemRow
find_filesystem [] id = none
find_filesystem (r ∷ rows) id = if r.id == id then some r else find_filesystem rows id

-- A layer with no filesystem scans null into an int64, which is an error.
scan_layer : LayerRow → Option FilesystemRow → Option (List ImageLayer) → Option (List ImageLayer)
scan_layer r (some f) (some rest) = some (
    record {
      stack_index = r.stack_index;
      uncompressed_size = f.size;
      serial = f.id;
      hash = f.digest;
      available = false;
      blob = none;
    }
    ∷ rest)
scan_layer r _ _ = none

scan_layers : Database → List LayerRow → Option (List ImageLayer)
unfolding scan_layer find_filesystem
scan_layers d [] = some []
scan_layers d (r ∷ rows) = scan_layer r (find_filesystem d.filesystems r.layer) (scan_layers d rows)

unfoldable pub get_layers : Database → ℕ → Option (List ImageLayer)
unfolding scan_layers image_rows
get_layers d serial = scan_layers d (image_rows d serial)

-- Only the table-of-contents entry is parsed, not the chunks.
abbrev existing_file : FileRow → File
existing_file r = let f = r.metadata in record f { parsing_chunks = []; fs_id = r.fs }

unfoldable pub get_unique_files : Database → List ImageLayer → List File
get_unique_files d layers =
    let lids = map (λ (l : ImageLayer). l.serial) layers in
    map existing_file (keep (λ r. contains lids r.fs && not (r.hash == "")) d.files)

requested_file : ℕ → (List ℕ → ℕ) → LayerRow → FileRow → RankedFile
requested_file unranked avg l r =
    let f = r.metadata in
    record {
      file = record f { fs_id = r.fs };
      rank = elim r.order [ [] ↦ unranked | _ ↦ avg r.order ];
      stack = l.stack_index;
      reference_fs_id = 0;
      reference_stack = 0;
      payload_order = 0;
    }

requested_rows : (LayerRow → FileRow → RankedFile) → Database → List LayerRow → List RankedFile
unfolding find_filesystem
requested_rows make d [] = []
requested_rows make d (l ∷ rows) =
    elim (find_filesystem d.filesystems l.layer) [
      | none ↦ []
      | some f ↦ map (make l) (keep (λ r. r.fs == f.id) d.files)
    ]
    ++ requested_rows make d rows

-- `avg` is the float64 that the database computes from ranks.
unfoldable pub get_files_with_ranks : (List ℕ → ℕ) → Database → ℕ → List RankedFile
unfolding requested_file requested_rows image_rows
get_files_with_ranks avg d serial =
    requested_rows (requested_file max_float64 avg) d (image_rows d serial)

unfoldable pub get_files_without_ranks : Database → ℕ → List RankedFile
unfolding requested_file requested_rows image_rows
get_files_without_ranks d serial =
    requested_rows (requested_file max_float64 (λ _. max_float64)) d (image_rows d serial)
