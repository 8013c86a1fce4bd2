-- ===== src/Proxy/Ranking/Recorded.antt =====
-- Which ranks a file has after an update (proxy/database.go).
use starlight.Prelude.{
  ℕ, ◌≡◌, refl, sym, ap, ◌∙◌, Bool, true, false, inl, inr, none, some, List, [], ◌∷◌, ◌++◌, map,
  append-nil, append_assoc, nat_comparable, text_comparable, if◌then◌else◌, Bool-cases, ok, All,
}
use starlight.Client.Tracer.{OptimizedTraceItem, OptimizedGroup}
use starlight.Proxy.Catalog.{Catalog}
use starlight.Proxy.Database.{Database, FileRow}
use starlight.Proxy.Ranking.{
  layers_image_map, source_fs, names_file, append_rank, update_files, answer_with, updated,
  with_map, update_file_ranks,
}

-- Whether an item is of the file of a row: its layer has the row's filesystem, and it has its name.
unfoldable pub is_of : List (List ℕ) → FileRow → OptimizedTraceItem → Bool
unfolding names_file
is_of m r f = elim (source_fs m f) [ none ↦ false | some id ↦ names_file id f.file_name r ]

-- The ranks of the items that are of the file of a row, in their order.
unfoldable pub ranks_of : List (List ℕ) → FileRow → List OptimizedTraceItem → List ℕ
unfolding is_of
ranks_of m r [] = []
ranks_of m r (f ∷ fs) = let rest = ranks_of m r fs in if is_of m r f then f.rank ∷ rest else rest

abbrev pub with_ranks : List (List ℕ) → List OptimizedTraceItem → FileRow → FileRow
with_ranks m fs r = record r { order = r.order ++ ranks_of m r fs }

-- The item has a source image, with a layer at its stack.
abbrev pub Traced : List (List ℕ) → OptimizedTraceItem → Type 0
Traced m f = (id : ℕ) × (source_fs m f ≡ some id)

no_ranks : (m : List (List ℕ)) (rs : List FileRow) → map (with_ranks m []) rs ≡ rs
unfolding ranks_of
no_ranks m [] = refl
no_ranks m (r ∷ rs) =
    ap (λ o. record r { order = o } ∷ map (with_ranks m []) rs) (append-nil r.order)
    ∙ ap (λ l. r ∷ l) (no_ranks m rs)

ranks_of_order :
    (m : List (List ℕ)) (r : FileRow) (o : List ℕ) (fs : List OptimizedTraceItem)
    → ranks_of m (record r { order = o }) fs ≡ ranks_of m r fs
unfolding ranks_of is_of names_file
ranks_of_order m r o [] = refl
ranks_of_order m r o (f ∷ fs) =
    ap (λ rest. if is_of m r f then f.rank ∷ rest else rest) (ranks_of_order m r o fs)

is_of_source :
    (m : List (List ℕ)) (r : FileRow) (f : OptimizedTraceItem) (id : ℕ)
    → source_fs m f ≡ some id
    → is_of m r f ≡ names_file id f.file_name r
unfolding is_of
is_of_source m r f id q = rw (is_of, q) refl

one_rank :
    (m : List (List ℕ)) (f : OptimizedTraceItem) (fs : List OptimizedTraceItem) (id : ℕ)
    (r : FileRow)
    → source_fs m f ≡ some id
    → with_ranks m fs (append_rank f.rank id f.file_name r) ≡ with_ranks m (f ∷ fs) r
unfolding ranks_of append_rank
one_rank m f fs id r q = elim (Bool-cases (names_file id f.file_name r)) [
  | inl p ↦
      let found : is_of m r f ≡ true = is_of_source m r f id q ∙ p in
      let o = r.order ++ f.rank ∷ [] in
      rw (p, found)
        (ap (λ l. record r { order = o ++ l }) (ranks_of_order m r o fs)
          ∙ ap (λ l. record r { order = l }) (append_assoc r.order (f.rank ∷ []) (ranks_of m r fs)))
  | inr p ↦ let other : is_of m r f ≡ false = is_of_source m r f id q ∙ p in rw (p, other) refl
]

one_update :
    (m : List (List ℕ)) (f : OptimizedTraceItem) (fs : List OptimizedTraceItem) (id : ℕ)
    (rs : List FileRow)
    → source_fs m f ≡ some id
    → map (with_ranks m fs) (map (append_rank f.rank id f.file_name) rs)
      ≡ map (with_ranks m (f ∷ fs)) rs
one_update m f fs id [] q = refl
one_update m f fs id (r ∷ rs) q =
    ap (λ x. x ∷ map (with_ranks m fs) (map (append_rank f.rank id f.file_name) rs))
      (one_rank m f fs id r q)
    ∙ ap (λ l. with_ranks m (f ∷ fs) r ∷ l) (one_update m f fs id rs q)

update_files-with_ranks :
    (m : List (List ℕ)) (fs : List OptimizedTraceItem) (d : Database)
    → All (Traced m) fs
    → update_files m fs d ≡ (record d { files = map (with_ranks m fs) d.files }, ok tt)
unfolding update_files
update_files-with_ranks m [] d h =
    ap (λ l. (record d { files = l }, ok tt)) (sym (no_ranks m d.files))
update_files-with_ranks m (f ∷ fs) d ((id, q), h) =
    let next : Database = record d { files = map (append_rank f.rank id f.file_name) d.files } in
    let step : update_files m (f ∷ fs) d ≡ update_files m fs next = rw (update_files, q) refl in
    step
    ∙ update_files-with_ranks m fs next h
    ∙ ap (λ l. (record d { files = l }, ok tt)) (one_update m f fs id d.files q)

-- If every image of a group is found with no more layers than it says it has, and every item of the
-- group names a layer of one of them, then the update of the group succeeds, and the only change is
-- that each file of the tables has after its ranks those of the items that are of it, in their order:
-- the items whose layer has the file's filesystem and which have its name.
pub update_file_ranks-ranks_of :
    (c : Catalog) (group : OptimizedGroup) (m : List (List ℕ)) (d : Database)
    → layers_image_map c d group.images ≡ ok m
    → All (Traced m) group.history
    → update_file_ranks c (group ∷ []) d
      ≡ (record d { files = map (with_ranks m group.history) d.files }, ok (m ∷ []))
unfolding update_file_ranks with_map updated answer_with
update_file_ranks-ranks_of c group m d found traced =
    ap (λ o. with_map o group (update_file_ranks c []) d) found
    ∙ ap (λ s. updated m s (update_file_ranks c []))
        (update_files-with_ranks m group.history d traced)
