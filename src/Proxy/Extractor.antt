-- ===== src/Proxy/Extractor.antt =====
-- Reading the tables of contents of an image into the database (proxy/extractor.go). What the
-- registry answers for an image is a record, where a call that fails is none; a table of contents is
-- listed in the order in which the two maps of it are visited.
pub mod Failing
pub mod Stored
pub mod Complete
use starlight.Prelude.{
  ℕ, ◌+◌, String, Bool, true, false, Option, none, some, List, [], ◌∷◌, ◌++◌, get_or,
  nat_comparable, text_comparable, if◌then◌else◌, Map, lookup, insert, MapOrder, Outcome, message,
  ok, error, panic, Error,
}
use starlight.Proxy.Bundle.{File, FileChunkParsing}
use starlight.Proxy.Catalog.{Catalog, insert_image, set_image_ready, set_image_tag}
use starlight.Proxy.Database.Writing.{Tables, insert_layer, insert_files}

-- The entries by name, and the chunks by the name of their file.
pub record Toc : Type 0 where
  pub entries : Map String File
  pub chunks : Map String (List FileChunkParsing)

-- `toc` is none if the layer cannot be read or is not in the seekable format.
pub record SourceLayer : Type 0 where
  pub size : Option ℕ
  pub digest : Option String
  pub toc : Option Toc

-- `config` says whether the configuration can be read; `platform` is joined from its parts already.
pub record SourceImage : Type 0 where
  pub digest : Option String
  pub config : Bool
  pub manifest_layers : Option ℕ
  pub layers : Option (List SourceLayer)
  pub platform : Option String

pub record Extraction : Type 0 where
  pub catalog : Catalog
  pub tables : Tables

-- Chunks of a name that has no entry are a nil pointer.
unfoldable pub add_chunks :
    Map String (List FileChunkParsing) → Map String File → Option (Map String File)
add_chunks [] buffer = some buffer
add_chunks ((k, cs) ∷ more) buffer = elim (lookup k buffer) [
  | none ↦ none
  | some f ↦
      add_chunks more (insert k (record f { parsing_chunks = f.parsing_chunks ++ cs }) buffer)
]

-- The transaction is committed on every return.
read_toc : ℕ → Option Toc → Tables → Tables × Outcome (Unit {0})
unfolding add_chunks
read_toc fs_id none t = (t, error (message "failed to read the layer"))
read_toc fs_id (some toc) t = elim (add_chunks toc.chunks toc.entries) [
  | none ↦ (t, panic)
  | some buffer ↦ (insert_files fs_id buffer t, ok tt)
]

with_layer : Option Toc → Tables → Option (Tables × ℕ × Bool) → Tables × Outcome (Unit {0})
unfolding read_toc
with_layer toc old none = (old, error (message "failed to insert the layer"))
with_layer toc old (some (t, fs_id, existing)) =
    let read = read_toc fs_id toc t in if existing then (t, ok tt) else read

save_known :
    ℕ → ℕ → Option ℕ → Option String → Option Toc → Tables → Tables → Tables × Outcome (Unit {0})
unfolding with_layer
save_known image idx none digest toc seen t = (t, error (message "no size"))
save_known image idx (some size) none toc seen t = (t, error (message "no digest"))
save_known image idx (some size) (some digest) toc seen t =
    with_layer toc t (insert_layer size image idx digest seen t)

-- `seen` is the tables when the layer's digest was looked up.
pub save_layer : ℕ → ℕ → SourceLayer → Tables → Tables → Tables × Outcome (Unit {0})
unfolding save_known
save_layer image idx l seen t = save_known image idx l.size l.digest l.toc seen t

-- How the goroutines that save the layers come: the order of their commits, and how many commits of
-- the others came between the lookup of a layer's digest and its own commit.
pub record Schedule : Type 0 where
  pub order : MapOrder (ℕ × SourceLayer)
  pub lag : ℕ → ℕ

-- Every layer is saved, also after an error; the first error is the answer. A panic ends the proxy.
first : Outcome (Unit {0}) → Outcome (Unit {0}) → Outcome (Unit {0})
first (ok _) r = r
first (error e) (ok _) = error e
first (error e) (error _) = error e
first (error e) panic = panic
first panic r = panic

after_layer :
    Outcome (Unit {0}) → Tables × Outcome (Unit {0}) → Tables → Tables × Outcome (Unit {0})
unfolding first
after_layer panic rest t = (t, panic)
after_layer (ok u) (t, r) _ = (t, first (ok u) r)
after_layer (error e) (t, r) _ = (t, first (error e) r)

-- `older` is the tables before each commit, the last one first.
unfoldable pub save_layers :
    (ℕ → ℕ) → ℕ → List (ℕ × SourceLayer) → List Tables → Tables → Tables × Outcome (Unit {0})
unfolding save_layer after_layer
save_layers lag image [] older t = (t, ok tt)
save_layers lag image ((idx, l) ∷ more) older t =
    let (t', r) = save_layer image idx l (get_or (t ∷ older) (lag idx) t) t in
    after_layer r (save_layers lag image more (t ∷ older) t') t'

numbered : ℕ → List SourceLayer → List (ℕ × SourceLayer)
numbered i [] = []
numbered i (l ∷ ls) = (i, l) ∷ numbered (i + 1) ls

-- The error of the call that lists the layers is overwritten, and no layer is left.
unfoldable pub listed : Option (List SourceLayer) → List (ℕ × SourceLayer)
unfolding numbered
listed none = []
listed (some ls) = numbered 0 ls

inserted_or : Option (Catalog × ℕ × Bool) → Outcome (Catalog × ℕ × Bool)
inserted_or none = error (message "caching is in progress or unfinished")
inserted_or (some r) = ok r

image_of : String → Option String → Bool → Option ℕ → Catalog → Outcome (Catalog × ℕ × Bool)
unfolding inserted_or
image_of name none config manifest c = error (message "no digest")
image_of name (some digest) false manifest c = error (message "no configuration")
image_of name (some digest) true none c = error (message "no manifest")
image_of name (some digest) true (some n) c = inserted_or (insert_image name digest n c)

pub save_image : String → SourceImage → Catalog → Outcome (Catalog × ℕ × Bool)
unfolding image_of
save_image name img c = image_of name img.digest img.config img.manifest_layers c

pub platform_of : Option String → String
platform_of none = "uni-arch"
platform_of (some p) = p

tag_image : String → String → SourceImage → ℕ → Extraction → Extraction × Outcome (Unit {0})
unfolding platform_of
tag_image name tag img serial x = (
  record x { catalog = set_image_tag name tag (platform_of img.platform) serial x.catalog },
  ok tt,
)

enabled :
    String
    → String
    → SourceImage
    → ℕ
    → Option Catalog
    → Extraction
    → Extraction × Outcome (Unit {0})
unfolding tag_image
enabled name tag img serial none x = (x, error (message "failed to enable image"))
enabled name tag img serial (some c) x = tag_image name tag img serial (record x { catalog = c })

pub cached :
    String
    → String
    → SourceImage
    → ℕ
    → Catalog
    → Tables × Outcome (Unit {0})
    → Extraction × Outcome (Unit {0})
unfolding enabled
cached name tag img serial c (t, error e) = (record { catalog = c; tables = t }, error e)
cached name tag img serial c (t, panic) = (record { catalog = c; tables = t }, panic)
cached name tag img serial c (t, ok _) =
    enabled name tag img serial (set_image_ready true serial c) (record { catalog = c; tables = t })

saved_as :
    Schedule
    → String
    → String
    → SourceImage
    → Outcome (Catalog × ℕ × Bool)
    → Extraction
    → Extraction × Outcome (Unit {0})
unfolding tag_image cached listed
saved_as run name tag img (error e) x = (x, error e)
saved_as run name tag img panic x = (x, panic)
saved_as run name tag img (ok (c, serial, existing)) x =
    let saved = save_layers run.lag serial (run.order.visit (listed img.layers)) [] x.tables in
    if existing
    then tag_image name tag img serial (record x { catalog = c })
    else cached name tag img serial c saved

-- `saveToCPerImage`; `run` is how the goroutines that save the layers come.
pub save_toc_per_image :
    Schedule → String → String → SourceImage → Extraction → Extraction × Outcome (Unit {0})
unfolding saved_as
save_toc_per_image run name tag img x = saved_as run name tag img (save_image name img x.catalog) x
