-- ===== src/Proxy/Database/Writing/Laws.antt =====
-- What the writes of a layer and of its files leave in the tables (proxy/database.go).
use starlight.Prelude.{
  ℕ, ◌<◌, String, ◌≡◌, refl, sym, ap, ◌∙◌, ◌≢◌, ◌+◌, subst, inl, inr, false, ◌&&◌, Option, none,
  some, List, [], ◌∷◌, ◌++◌, arith, ◌==◌, nat_comparable, text_comparable, ==_self, if◌then◌else◌,
  Bool-cases, Option-cases, All, All-append, All-imp, Map,
}
use starlight.Proxy.Bundle.{File}
use starlight.Proxy.Database.{Database, FilesystemRow, LayerRow, find_filesystem}
use starlight.Proxy.Database.Writing.{
  Tables, same_blob, find_blob, filesystem_for, new_filesystem, same_place, put_layer, refer,
  insert_layer, insert_files,
}

abbrev pub blob : ℕ → String → ℕ → FilesystemRow
blob id digest size = record { id = id; digest = digest; size = size }

-- The filesystem of the layer that an image has at a stack.
unfoldable pub layer_at : ℕ → ℕ → List LayerRow → Option ℕ
unfolding same_place
layer_at image stack [] = none
layer_at image stack (r ∷ rs) =
    if same_place image stack r then some r.layer else layer_at image stack rs

-- The numbers of the filesystems are not 0 and below the next one, and each finds its row.
pub record Fit (t : Tables) : Type 0 where
  pub positive : 0 < t.next_fs
  pub below : All (λ r. (0 < r.id) × (r.id < t.next_fs)) t.database.filesystems
  pub own : All (λ r. find_filesystem t.database.filesystems r.id ≡ some r) t.database.filesystems

-- Every filesystem that one database has is in the other.
abbrev pub Retains : Database → Database → Type 0
Retains d e =
    (id : ℕ) (r : FilesystemRow)
    → find_filesystem d.filesystems id ≡ some r
    → find_filesystem e.filesystems id ≡ some r

find_filesystem-append :
    (fs gs : List FilesystemRow) (id : ℕ) (r : FilesystemRow)
    → find_filesystem fs id ≡ some r
    → find_filesystem (fs ++ gs) id ≡ some r
unfolding find_filesystem
find_filesystem-append [] gs id r h = cc
find_filesystem-append (x ∷ fs) gs id r h = elim (Bool-cases (x.id == id)) [
  | inl p ↦ ground (arith, p, h)
  | inr p ↦ rw p (find_filesystem-append fs gs id r (ground (arith, p, h)))
]

find_filesystem_last :
    (fs : List FilesystemRow) (r : FilesystemRow)
    → All (λ x. (0 < x.id) × (x.id < r.id)) fs
    → find_filesystem (fs ++ r ∷ []) r.id ≡ some r
unfolding find_filesystem
find_filesystem_last [] r h = rw (==_self r.id) refl
find_filesystem_last (x ∷ fs) r h = ground (arith, h.0.1, find_filesystem_last fs r h.1)

found_blob :
    (P : FilesystemRow → Type 0) (digest : String) (size id : ℕ) (fs : List FilesystemRow)
    → All P fs
    → find_blob digest size fs ≡ some id
    → P (blob id digest size)
unfolding find_blob same_blob
found_blob P digest size id [] h q = cc
found_blob P digest size id (r ∷ fs) h q = elim (Bool-cases (r.digest == digest)) [
  | inr p ↦ found_blob P digest size id fs h.1 (ground (arith, p, q))
  | inl p ↦ elim (Bool-cases (r.size == size)) [
    | inr s ↦ found_blob P digest size id fs h.1 (ground (arith, p, s, q))
    | inl s ↦
        subst (λ x. P (blob id digest x)) ((nat_comparable.agrees r.size size).0 s)
          (subst (λ x. P (blob id x r.size)) ((text_comparable.agrees r.digest digest).0 p)
            (subst (λ x. P (blob x r.digest r.size)) (ground (arith, p, s, q)) h.0))
  ]
]

layer_at-put_layer :
    (l : LayerRow) (image stack : ℕ) (rs : List LayerRow)
    → layer_at image stack (put_layer l rs)
      ≡ (if same_place image stack l then some l.layer else layer_at image stack rs)
unfolding layer_at put_layer same_place
layer_at-put_layer l image stack [] = refl
layer_at-put_layer l image stack (r ∷ rs) = ground (arith, layer_at-put_layer l image stack rs)

-- Two blobs that differ in the digest or in the size.
abbrev pub Differ : String → ℕ → String → ℕ → Type 0
Differ digest size other n = digest ≡ other → size ≢ n

find_blob-other :
    (other : String) (n : ℕ) (r : FilesystemRow) (fs : List FilesystemRow)
    → Differ r.digest r.size other n
    → find_blob other n (fs ++ r ∷ []) ≡ find_blob other n fs
unfolding find_blob same_blob
find_blob-other other n r [] d = elim (Bool-cases (r.digest == other)) [
  | inr p ↦ rw p refl
  | inl p ↦ elim (Bool-cases (r.size == n)) [
    | inr s ↦ rw (p, s) refl
    | inl s ↦
        absurd
          (d ((text_comparable.agrees r.digest other).0 p) ((nat_comparable.agrees r.size n).0 s))
  ]
]
find_blob-other other n r (x ∷ fs) d =
    ap (λ o. if same_blob other n x then some x.id else o) (find_blob-other other n r fs d)

-- What a layer's filesystem comes to.
pub record Filed (t : Tables) (digest : String) (size : ℕ) (r : Option (Tables × ℕ)) : Type 0 where
  pub after : Tables
  pub id : ℕ
  pub answer : r ≡ some (after, id)
  pub fit : Fit after
  pub has : find_filesystem after.database.filesystems id ≡ some (blob id digest size)
  pub retains : Retains t.database after.database
  pub same_layers : after.database.layers ≡ t.database.layers
  pub blobs :
      (other : String) (n : ℕ)
      → Differ digest size other n
      → find_blob other n after.database.filesystems ≡ find_blob other n t.database.filesystems

filesystem_for_new :
    (digest : String) (size : ℕ) (t : Tables)
    → Fit t
    → find_blob digest size t.database.filesystems ≡ none
    → Filed t digest size (filesystem_for digest size none t)
unfolding filesystem_for new_filesystem
filesystem_for_new digest size t h absent =
    let fs = t.database.filesystems in
    let new = blob t.next_fs digest size in
    let last = find_filesystem_last fs new h.below in
    record {
      after = record {
        database = record t.database { filesystems = fs ++ new ∷ [] };
        next_fs = t.next_fs + 1;
      };
      id = t.next_fs;
      answer = ap (λ o. new_filesystem digest size o t) absent;
      fit = record {
        positive = omega (arith, h.positive);
        below =
            All-append _ fs (new ∷ []) (All-imp (λ r b. (b.0, omega (arith, b.1))) fs h.below)
              ((h.positive, omega arith), tt);
        own =
            All-append _ fs (new ∷ [])
              (All-imp (λ r o. find_filesystem-append fs (new ∷ []) r.id r o) fs h.own) (last, tt);
      };
      has = last;
      retains = λ id r q. find_filesystem-append fs (new ∷ []) id r q;
      same_layers = refl;
      blobs = λ other n d. find_blob-other other n new fs d;
    }

filesystem_for_found :
    (digest : String) (size id : ℕ) (t : Tables)
    → Fit t
    → find_blob digest size t.database.filesystems ≡ some id
    → Filed t digest size (filesystem_for digest size (some id) t)
unfolding filesystem_for
filesystem_for_found digest size id t h q =
    let b = found_blob _ digest size id t.database.filesystems h.below q in
    record {
      after = t;
      id = id;
      answer = ground (arith, b.0);
      fit = h;
      has = found_blob _ digest size id t.database.filesystems h.own q;
      retains = λ i r e. e;
      same_layers = refl;
      blobs = λ other n d. refl;
    }

filed :
    (digest : String) (size : ℕ) (t : Tables)
    → Fit t
    → Filed t digest size
        (filesystem_for digest size (find_blob digest size t.database.filesystems) t)
filed digest size t h = elim (Option-cases (find_blob digest size t.database.filesystems)) [
  | inl p ↦
      subst (λ o. Filed t digest size (filesystem_for digest size o t)) (sym p)
        (filesystem_for_new digest size t h p)
  | inr (id, p) ↦
      subst (λ o. Filed t digest size (filesystem_for digest size o t)) (sym p)
        (filesystem_for_found digest size id t h p)
]

-- What inserting a layer comes to.
pub record Placed (seen t : Tables) (image stack : ℕ) (digest : String) (size : ℕ) : Type 0 where
  pub after : Tables
  pub id : ℕ
  pub answer : insert_layer size image stack digest seen t ≡ some (after, id, false)
  pub fit : Fit after
  pub has : find_filesystem after.database.filesystems id ≡ some (blob id digest size)
  pub retains : Retains t.database after.database
  pub placed :
      (i s : ℕ)
      → layer_at i s after.database.layers
        ≡ (if image == i && stack == s then some id else layer_at i s t.database.layers)
  pub blobs :
      (other : String) (n : ℕ)
      → Differ digest size other n
      → find_blob other n after.database.filesystems ≡ find_blob other n t.database.filesystems

pub insert_layer-Placed :
    (size image stack : ℕ) (digest : String) (seen t : Tables)
    → Fit t
    → find_blob digest size seen.database.filesystems ≡ find_blob digest size t.database.filesystems
    → Placed seen t image stack digest size
unfolding insert_layer refer same_place
insert_layer-Placed size image stack digest seen t h same =
    let f = filed digest size t h in
    let l : LayerRow = record { size = size; image = image; stack_index = stack; layer = f.id } in
    record {
      after = _;
      id = f.id;
      answer =
          ap (refer size image stack) (ap (λ o. filesystem_for digest size o t) same ∙ f.answer);
      fit = record { positive = f.fit.positive; below = f.fit.below; own = f.fit.own };
      has = f.has;
      retains = f.retains;
      placed = λ i s.
          layer_at-put_layer l i s f.after.database.layers
          ∙ ap (λ ls. if image == i && stack == s then some f.id else layer_at i s ls)
              f.same_layers;
      blobs = f.blobs;
    }

pub Fit-insert_files :
    (fs_id : ℕ) (entries : Map String File) (t : Tables)
    → Fit t
    → Fit (insert_files fs_id entries t)
unfolding insert_files
Fit-insert_files fs_id entries t h = record { positive = h.positive; below = h.below; own = h.own }

pub insert_files_layers :
    (fs_id : ℕ) (entries : Map String File) (t : Tables)
    → ((insert_files fs_id entries t).database.layers ≡ t.database.layers)
      × ((insert_files fs_id entries t).database.filesystems ≡ t.database.filesystems)
unfolding insert_files
insert_files_layers fs_id entries t = (refl, refl)
