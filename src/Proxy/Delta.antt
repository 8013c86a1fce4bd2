-- ===== src/Proxy/Delta.antt =====
-- The delta of two images: `computeDelta` of proxy/builder.go, one function for each of its loops.
-- The requested files are objects on a heap, `b.RequestedFiles`; a content holds pointers to them,
-- and the loops write through those pointers.
pub mod Layers
pub mod Existing
pub mod Requested
pub mod References
pub mod Payload
pub mod Placement
pub mod Grouped
pub mod Resolved
pub mod Order
use starlight.Prelude.{
  add64, MapOrder, Sorter, get_or, write_all, ℕ, ◌+◌, String, Bool, true, false, not, ◌&&◌, ◌||◌,
  Option, none, some, List, [], ◌∷◌, ◌++◌, ltb, ◌==◌, nat_comparable, text_comparable,
  if◌then◌else◌, Map, lookup, insert, map,
}
use starlight.Proxy.Bundle.{
  File, RankedFile, ImageLayer, Image, LayerSource, from_destination, from_source, Content,
  FileChunkParsing, FileChunk, max_float64, files_of,
}
use starlight.Proxy.Builder.{Builder}
use starlight.Proxy.Database.{
  Database, get_files_without_ranks, get_unique_files, get_files_with_ranks,
}

-- The layers that the client has, and where each of them comes from.
pub record Available : Type 0 where
  pub layers : List ImageLayer
  pub ids : Map ℕ LayerSource

add_available : LayerSource → List ImageLayer → Available → Available
add_available from [] a = a
add_available from (l ∷ ls) a = add_available from ls (
    if l.available
    then record { layers = a.layers ++ l ∷ []; ids = insert l.serial from a.ids }
    else a)

abbrev add_source : Option Image → Available → Available
add_source none a = a
add_source (some s) a = add_available from_source s.layers a

pub find_available : Builder → Available
unfolding add_available
find_available b =
    add_available from_destination b.destination.layers
      (add_source b.source (record { layers = []; ids = [] }))

-- 1. the set of existing files from available layers

-- `has && ((f.FsId < fe.FsId) || (availableIds[f.FsId] == send.FromDestination))`; a key that is
-- missing reads as false.
abbrev source_of : Option LayerSource → LayerSource
source_of none = false
source_of (some from) = from

pub skips_existing : Map ℕ LayerSource → File → Option File → Bool
skips_existing ids f none = false
skips_existing ids f (some fe) = ltb f.fs_id fe.fs_id || not (source_of (lookup f.fs_id ids))

pub deduplicate_existing : Map ℕ LayerSource → List File → Map String File → Map String File
unfolding skips_existing
deduplicate_existing ids [] m = m
deduplicate_existing ids (f ∷ fs) m =
    deduplicate_existing ids fs
      (if skips_existing ids f (lookup f.digest m) then m else insert f.digest f m)

-- 2. the set of requested files from layers that are not available

-- The pointers of a content in the making, first file first.
pub record Group : Type 0 where
  pub first_file : ℕ
  pub more_files : List ℕ

is_present : {A : Type 0} → Option A → Bool
is_present none = false
is_present (some _) = true

pub is_requested : Map ℕ LayerSource → RankedFile → Bool
unfolding is_present
is_requested ids r =
    not (r.file.digest == "")
    && not (r.file.size == 0)
    && not (is_present (lookup r.file.fs_id ids))

add_file : Option Group → ℕ → Group
add_file none i = record { first_file = i; more_files = [] }
add_file (some fe) i = record fe { more_files = fe.more_files ++ i ∷ [] }

pub group_requested : Map ℕ LayerSource → ℕ → List RankedFile → Map String Group → Map String Group
unfolding is_requested add_file
group_requested ids i [] m = m
group_requested ids i (r ∷ rs) m =
    let d = r.file.digest in
    group_requested ids (i + 1) rs
      (if is_requested ids r then insert d (add_file (lookup d m) i) m else m)

-- 3. the best reference to the file content

abbrev pub blank : RankedFile
blank = record {
  file = record {
    name = "";
    digest = "";
    size = 0;
    offset = 0;
    chunk_offset = 0;
    chunk_size = 0;
    compressed_size = 0;
    parsing_chunks = [];
    fs_id = 0;
  };
  rank = 0;
  stack = 0;
  reference_fs_id = 0;
  reference_stack = 0;
  payload_order = 0;
}

-- `*p`; the pointers of a content are positions of requested files.
abbrev pub deref : List RankedFile → ℕ → RankedFile
deref h i = get_or h i blank

scan_files : List RankedFile → List ℕ → ℕ → ℕ → ℕ × ℕ
scan_files h [] rank stack = (rank, stack)
scan_files h (i ∷ is) rank stack =
    let f = deref h i in
    scan_files h is (if ltb f.rank rank then f.rank else rank)
      (if ltb f.stack stack then f.stack else stack)

content_from : Group → ℕ × ℕ → Content
content_from g (rank, stack) = record {
  first_file = g.first_file;
  more_files = g.more_files;
  rank = rank;
  stack = stack;
  offset = 0;
  size = 0;
  chunks = [];
  digest = "";
}

pub new_content : List RankedFile → Group → Content
unfolding scan_files content_from
new_content h g =
    content_from g
      (scan_files h (g.first_file ∷ g.more_files) max_float64 (deref h g.first_file).stack)

unfoldable pub set_reference : ℕ → RankedFile → RankedFile
set_reference id r = record r { reference_fs_id = id }

pub find_references :
    Map String File
    → List (String × Group)
    → List RankedFile
    → List Content
    → List RankedFile × List Content
unfolding set_reference new_content
find_references existing [] h cs = (h, cs)
find_references existing ((d, g) ∷ entries) h cs = elim (lookup d existing) [
  | some e ↦
      find_references existing entries
        (write_all (set_reference e.fs_id) (g.first_file ∷ g.more_files) h) cs
  | none ↦ find_references existing entries h (cs ++ new_content h g ∷ [])
]

-- 4. the contents laid out one after another

unfoldable pub set_payload : ℕ → ℕ → RankedFile → RankedFile
set_payload stack idx r = record r { reference_stack = stack; payload_order = idx }

parsed_chunk : FileChunkParsing → FileChunk
parsed_chunk c = record {
  offset = c.offset;
  chunk_offset = c.chunk_offset;
  chunk_size = c.chunk_size;
  compressed_size = c.compressed_size;
}

whole_chunk : File → FileChunk
whole_chunk f = record {
  offset = f.offset;
  chunk_offset = f.chunk_offset;
  chunk_size = f.chunk_size;
  compressed_size = f.compressed_size;
}

add_sizes : ℕ → List FileChunkParsing → ℕ
add_sizes size [] = size
add_sizes size (c ∷ cs) = add_sizes (add64 size c.compressed_size) cs

chunks_of : File → List FileChunkParsing → List FileChunk
unfolding parsed_chunk whole_chunk
chunks_of f [] = whole_chunk f ∷ []
chunks_of f (c ∷ cs) = map parsed_chunk (c ∷ cs)

size_of : ℕ → File → List FileChunkParsing → ℕ
unfolding add_sizes
size_of size f [] = f.compressed_size
size_of size f (c ∷ cs) = add_sizes size (c ∷ cs)

pub place : ℕ → File → Content → Content
unfolding size_of chunks_of
place offset f c = record c {
  offset = offset;
  digest = f.digest;
  size = size_of c.size f f.parsing_chunks;
  chunks = chunks_of f f.parsing_chunks;
}

pub record Layout : Type 0 where
  pub requested_files : List RankedFile
  pub contents : List Content
  pub body_length : ℕ

pub lay_out : ℕ → ℕ → List Content → List RankedFile → Layout
unfolding set_payload place
lay_out idx body_length [] h = record {
  requested_files = h;
  contents = [];
  body_length = body_length;
}
lay_out idx body_length (c ∷ cs) h =
    let h' = write_all (set_payload c.stack idx) (files_of c) h in
    let c' = place body_length (deref h' c.first_file).file c in
    let rest = lay_out (idx + 1) (add64 body_length c'.size) cs h' in
    record rest { contents = c' ∷ rest.contents }

-- The whole of computeDelta. `order` visits the map of requested contents, `sorter` is `sort.Sort`
-- by rank, `avg` the database's average.
module _ (order : MapOrder (String × Group)) (sorter : Sorter Content (λ c. c.rank))
    (avg : List ℕ → ℕ) where
  unfoldable pub requested_files_of : Database → Builder → List RankedFile
  requested_files_of db b =
      if b.disable_sorting
      then get_files_without_ranks db b.destination.serial
      else get_files_with_ranks avg db b.destination.serial

  pub sort_contents : Bool → List Content → List Content
  sort_contents disable_sorting cs = if disable_sorting then cs else sorter.sort cs

  unfoldable pub compute_delta : Database → Builder → Layout
  unfolding find_available deduplicate_existing group_requested find_references lay_out
      requested_files_of sort_contents
  compute_delta db b =
      let available = find_available b in
      let existing = deduplicate_existing available.ids (get_unique_files db available.layers) [] in
      let requested = requested_files_of db b in
      let groups = group_requested available.ids 0 requested [] in
      let (h, cs) = find_references existing (order.visit groups) requested [] in
      lay_out 0 0 (sort_contents b.disable_sorting cs) h
