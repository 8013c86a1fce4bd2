-- ===== src/Proxy/Bundle.antt =====
-- The data of a delta bundle (util/send/image.go). An int64 that holds a size, an offset or a serial
-- number is a natural number. A rank is a float64 that is not negative and no NaN, kept as its bit
-- pattern: on those the order of floats is the order of the patterns. A pointer to a requested file
-- is its position in `RequestedFiles`.
use starlight.Prelude.{ℕ, String, Bool, true, false, Option, List, ◌∷◌}

pub record FileChunk : Type 0 where
  pub offset : ℕ
  pub chunk_offset : ℕ
  pub chunk_size : ℕ
  pub compressed_size : ℕ

pub record FileChunkParsing : Type 0 where
  pub offset : ℕ
  pub chunk_offset : ℕ
  pub chunk_size : ℕ
  pub compressed_size : ℕ

-- The table-of-contents fields that the delta is computed from.
pub record File : Type 0 where
  pub name : String
  pub digest : String
  pub size : ℕ
  pub offset : ℕ
  pub chunk_offset : ℕ
  pub chunk_size : ℕ
  pub compressed_size : ℕ
  pub parsing_chunks : List FileChunkParsing
  pub fs_id : ℕ

pub record RankedFile : Type 0 where
  pub file : File
  pub rank : ℕ
  pub stack : ℕ
  pub reference_fs_id : ℕ
  pub reference_stack : ℕ
  pub payload_order : ℕ

-- `Files` begins with the file for which the content was made.
pub record Content : Type 0 where
  pub first_file : ℕ
  pub more_files : List ℕ
  pub rank : ℕ
  pub stack : ℕ
  pub offset : ℕ
  pub size : ℕ
  pub chunks : List FileChunk
  pub digest : String

abbrev pub files_of : Content → List ℕ
files_of c = c.first_file ∷ c.more_files

-- `Blob` is the buffer of the layer cache, once the layer is loaded.
pub record ImageLayer : Type 0 where
  pub stack_index : ℕ
  pub uncompressed_size : ℕ
  pub serial : ℕ
  pub hash : String
  pub available : Bool
  pub blob : Option (List ℕ)

pub record Image : Type 0 where
  pub serial : ℕ
  pub layers : List ImageLayer

abbrev pub LayerSource : Type 0
LayerSource = Bool

abbrev pub from_destination : LayerSource
from_destination = false

abbrev pub from_source : LayerSource
from_source = true

-- math.MaxFloat64
abbrev pub max_float64 : ℕ
max_float64 = 0x7fefffffffffffff
