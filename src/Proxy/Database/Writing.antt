-- ===== src/Proxy/Database/Writing.antt =====
-- The writes of a layer and of its files (`InsertLayer` and `InsertFiles` of proxy/database.go). A
-- call takes effect when its transaction is committed, but its SELECT is outside the transaction and
-- sees the tables as they were at that time. The database itself does not fail, but it enforces its
-- constraints.
pub mod Laws
use starlight.Prelude.{
  ℕ, ◌+◌, String, Bool, false, not, ◌&&◌, Option, none, some, List, [], ◌∷◌, ◌++◌, map, ◌==◌,
  nat_comparable, text_comparable, if◌then◌else◌, keep, Map,
}
use starlight.Proxy.Bundle.{File}
use starlight.Proxy.Database.{Database, FilesystemRow, LayerRow, FileRow}

-- The tables, and the next number of a filesystem.
pub record Tables : Type 0 where
  pub database : Database
  pub next_fs : ℕ

same_blob : String → ℕ → FilesystemRow → Bool
same_blob digest size r = r.digest == digest && r.size == size

pub find_blob : String → ℕ → List FilesystemRow → Option ℕ
unfolding same_blob
find_blob digest size [] = none
find_blob digest size (r ∷ rs) =
    if same_blob digest size r then some r.id else find_blob digest size rs

-- A new filesystem, unless there is one of this digest and size by now: they are unique.
new_filesystem : String → ℕ → Option ℕ → Tables → Option (Tables × ℕ)
new_filesystem digest size (some _) t = none
new_filesystem digest size none t =
    let d = t.database in
    let r : FilesystemRow = record { id = t.next_fs; digest = digest; size = size } in
    some (
      record {
        database = record d { filesystems = d.filesystems ++ r ∷ [] };
        next_fs = t.next_fs + 1;
      },
      t.next_fs,
    )

-- The filesystem that was found, or a new one; the number 0 is taken for none, and the digest and the
-- size are unique.
filesystem_for : String → ℕ → Option ℕ → Tables → Option (Tables × ℕ)
unfolding find_blob new_filesystem
filesystem_for digest size (some id) t = if id == 0 then none else some (t, id)
filesystem_for digest size none t =
    new_filesystem digest size (find_blob digest size t.database.filesystems) t

same_place : ℕ → ℕ → LayerRow → Bool
same_place image stack r = r.image == image && r.stack_index == stack

-- ON CONFLICT DO UPDATE
put_layer : LayerRow → List LayerRow → List LayerRow
unfolding same_place
put_layer l [] = l ∷ []
put_layer l (r ∷ rs) =
    let rest = put_layer l rs in
    if same_place l.image l.stack_index r
    then record r { size = l.size; layer = l.layer } ∷ rs
    else r ∷ rest

refer : ℕ → ℕ → ℕ → Option (Tables × ℕ) → Option (Tables × ℕ × Bool)
unfolding put_layer
refer size image stack none = none
refer size image stack (some (t, fs_id)) =
    let d = t.database in
    let l : LayerRow = record { size = size; image = image; stack_index = stack; layer = fs_id } in
    some (record t { database = record d { layers = put_layer l d.layers } }, fs_id, false)

-- `seen` is the tables that the SELECT saw. The answer says that the layer is new also if its
-- filesystem was there.
unfoldable pub insert_layer : ℕ → ℕ → ℕ → String → Tables → Tables → Option (Tables × ℕ × Bool)
unfolding find_blob filesystem_for refer
insert_layer size image stack digest seen t =
    refer size image stack
      (filesystem_for digest size (find_blob digest size seen.database.filesystems) t)

file_row : ℕ → String × File → FileRow
file_row fs_id (k, f) = record { hash = f.digest; fs = fs_id; file = k; order = []; metadata = f }

-- The files of the filesystem are replaced, and what was recorded of their order is lost.
unfoldable pub insert_files : ℕ → Map String File → Tables → Tables
unfolding file_row
insert_files fs_id entries t =
    let d = t.database in
    record t {
      database = record d {
        files = keep (λ r. not (r.fs == fs_id)) d.files ++ map (file_row fs_id) entries;
      };
    }
