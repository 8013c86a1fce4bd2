-- ===== src/Proxy/Ranking.antt =====
-- Recording the order of file accesses in the database (`UpdateFileRanks` of proxy/database.go). The
-- database itself does not fail; the updates that were made before a panic stay.
pub mod Recorded
use starlight.Prelude.{
  ℕ, zero, suc, String, Bool, ◌&&◌, Option, none, some, List, [], ◌∷◌, ◌++◌, map, ◌==◌,
  nat_comparable, text_comparable, if◌then◌else◌, get_elem?, Outcome, message, ok, error, panic,
}
use starlight.Client.Tracer.{OptimizedTraceItem, OptimizedGroup}
use starlight.Proxy.Catalog.{Catalog, ImageRow}
use starlight.Proxy.Database.{Database, LayerRow, FileRow, image_rows}

-- The image that is ready and has the digest, whatever its name.
ready_image : String → List ImageRow → Option ImageRow
ready_image hash [] = none
ready_image hash (r ∷ rs) = if r.ready && r.hash == hash then some r else ready_image hash rs

zeros : ℕ → List ℕ
zeros zero = []
zeros (suc n) = 0 ∷ zeros n

put_before : ℕ → Option (List ℕ) → Option (List ℕ)
put_before id none = none
put_before id (some ids) = some (id ∷ ids)

-- The numbers of the filesystems in a slice of `nlayer`; more rows are out of its range.
fill : ℕ → List LayerRow → Option (List ℕ)
unfolding zeros put_before
fill nlayer [] = some (zeros nlayer)
fill zero (r ∷ rows) = none
fill (suc n) (r ∷ rows) = put_before r.layer (fill n rows)

filled : Option (List ℕ) → Outcome (List ℕ)
filled none = panic
filled (some ids) = ok ids

layers_of_image : Database → Option ImageRow → Outcome (List ℕ)
unfolding filled fill
layers_of_image d none = error (message "no such image")
layers_of_image d (some r) = filled (fill r.nlayer (image_rows d r.id))

add_image : Outcome (List ℕ) → Outcome (List (List ℕ)) → Outcome (List (List ℕ))
add_image (error e) rest = error e
add_image panic rest = panic
add_image (ok ids) (ok more) = ok (ids ∷ more)
add_image (ok ids) (error e) = error e
add_image (ok ids) panic = panic

unfoldable pub layers_image_map : Catalog → Database → List String → Outcome (List (List ℕ))
unfolding ready_image layers_of_image add_image
layers_image_map c d [] = ok []
layers_image_map c d (img ∷ more) =
    add_image (layers_of_image d (ready_image img c.images)) (layers_image_map c d more)

stack_in : Option (List ℕ) → ℕ → Option ℕ
stack_in none stack = none
stack_in (some ids) stack = get_elem? ids stack

-- layersImageMap[f.SourceImage][f.Stack]
unfoldable pub source_fs : List (List ℕ) → OptimizedTraceItem → Option ℕ
unfolding stack_in
source_fs m f = stack_in (get_elem? m f.source_image) f.stack

pub names_file : ℕ → String → FileRow → Bool
names_file fs_id file r = r.fs == fs_id && r.file == file

append_rank : ℕ → ℕ → String → FileRow → FileRow
unfolding names_file
append_rank rank fs_id file r =
    if names_file fs_id file r then record r { order = r.order ++ rank ∷ [] } else r

pub update_files :
    List (List ℕ) → List OptimizedTraceItem → Database → Database × Outcome (Unit {0})
unfolding source_fs append_rank
update_files m [] d = (d, ok tt)
update_files m (f ∷ fs) d = elim (source_fs m f) [
  | none ↦ (d, panic)
  | some id ↦
      update_files m fs (record d { files = map (append_rank f.rank id f.file_name) d.files })
]

answer_with :
    List (List ℕ)
    → Database × Outcome (List (List (List ℕ)))
    → Database × Outcome (List (List (List ℕ)))
answer_with m (d, ok res) = (d, ok (m ∷ res))
answer_with m (d, error e) = (d, error e)
answer_with m (d, panic) = (d, panic)

updated :
    List (List ℕ)
    → Database × Outcome (Unit {0})
    → (Database → Database × Outcome (List (List (List ℕ))))
    → Database × Outcome (List (List (List ℕ)))
unfolding answer_with
updated m (d, ok _) rest = answer_with m (rest d)
updated m (d, error e) rest = (d, error e)
updated m (d, panic) rest = (d, panic)

with_map :
    Outcome (List (List ℕ))
    → OptimizedGroup
    → (Database → Database × Outcome (List (List (List ℕ))))
    → Database
    → Database × Outcome (List (List (List ℕ)))
unfolding updated update_files
with_map (error e) group rest d = (d, error e)
with_map panic group rest d = (d, panic)
with_map (ok m) group rest d = updated m (update_files m group.history d) rest

pub update_file_ranks :
    Catalog → List OptimizedGroup → Database → Database × Outcome (List (List (List ℕ)))
unfolding with_map layers_image_map
update_file_ranks c [] d = (d, ok [])
update_file_ranks c (group ∷ groups) d =
    with_map (layers_image_map c d group.images) group (update_file_ranks c groups) d
