-- ===== src/Client/Extract.antt =====
-- Unpacking the payload (`Extract` of client/manager.go). The connection is the list of bytes still
-- to come. A file below the directory of a layer is the pair of the directory and the path, and the
-- path of a content is its digest from the eighth character on: the separators that GetPath puts in
-- stand at fixed places. Gzip is a parameter: the bytes that the reader yields before it ends or
-- fails, none if the header is refused. So are the answers of the operating system.
pub mod Unpack
pub mod Transfer
use starlight.Prelude.{
  ℕ, ◌+◌, String, Bool, true, Option, none, some, List, [], ◌∷◌, ◌++◌, map, ltb, leb,
  nat_comparable, text_comparable, if◌then◌else◌, add64, length, get_elem?, take, drop, modify, Map,
  lookup, insert,
}
use mathlib.Core.Option
use starlight.Prelude.{pair_comparable}
use Prim.Native.String.{len, slice}
use starlight.Client.Receive.{Content, FileChunk, ImageLayer}

pub data Ending : Type 0 where
  done : Ending
  failed : Ending
  -- an index or a slice out of range, a nil pointer, or a channel that is nil or closed already
  panicked : Ending

abbrev pub Disk : Type 0
Disk = Map (String × String) (List ℕ)

pub record Os : Type 0 where
  pub mkdir_all : String → String → Bool
  pub create : String → String → Bool
  pub write_file : String → String → Bool

pub record Manager : Type 0 where
  pub contents : List Content
  pub destination : List ImageLayer
  pub layers : Map ℕ ImageLayer
  pub stack_serial_map : List ℕ
  pub completed_stack : List Bool

unfoldable pub get_base_dir : String → Option String
get_base_dir digest = if leb 12 (len digest) then some (slice digest 7 12) else none

abbrev pub get_path : String → String
get_path digest = slice digest 7 (len digest)

-- A content, and the rest of the world after it.
pub record Step : Type 0 where
  pub content : Content
  pub files : Disk
  pub input : List ℕ
  pub ending : Ending

pub record Copied : Type 0 where
  pub file : List ℕ
  pub rest : List ℕ
  pub result : Ending

total_compressed_size : List FileChunk → ℕ
total_compressed_size [] = 0
total_compressed_size (ch ∷ chs) = add64 ch.compressed_size (total_compressed_size chs)

discard : Content → Disk → List ℕ → Step
unfolding total_compressed_size
discard c files input =
    let n = total_compressed_size c.chunks in
    record {
      content = c;
      files = files;
      input = drop n input;
      ending = if leb n (length input) then done else failed;
    }

-- close(c.Signal)
close_signal : Content → Option Content
close_signal c = elim c.signal [
  | none ↦ none
  | some closed ↦ if closed then none else some (record c { signal = some true })
]

unfoldable pub get_path_by_stack : Manager → ℕ → Option String
get_path_by_stack m stack = elim (get_elem? m.stack_serial_map stack) [
  | none ↦ none
  | some serial ↦ Option.map (λ (l : ImageLayer). l.local) (lookup serial m.layers)
]

pub record Extracted : Type 0 where
  pub contents : List Content
  pub files : Disk
  pub input : List ℕ
  pub ending : Ending

pub record Result : Type 0 where
  pub manager : Manager
  pub disk : Disk
  pub connection : List ℕ
  pub end : Ending

-- The rest runs if the content has been dealt with; else it stays as it is.
go_on : List Content → Step → Extracted → Extracted
go_on cs step rest = elim step.ending [
  | done ↦ record rest { contents = step.content ∷ rest.contents }
  | failed ↦ record {
    contents = step.content ∷ cs;
    files = step.files;
    input = step.input;
    ending = failed;
  }
  | panicked ↦ record {
    contents = step.content ∷ cs;
    files = step.files;
    input = step.input;
    ending = panicked;
  }
]

module _ (os : Os) (gunzip : List ℕ → Option (List ℕ)) where
  -- The chunks of one file; `file` is what has been written to it. A write to a file that was created
  -- does not fail.
  pub copy_chunks : List FileChunk → List ℕ → List ℕ → Copied
  copy_chunks [] file input = record { file = file; rest = input; result = done }
  copy_chunks (ch ∷ chs) file input =
      let b = take ch.compressed_size input in
      let rest = drop ch.compressed_size input in
      if leb ch.compressed_size (length b)
      then elim (gunzip b) [
        | none ↦ record { file = file; rest = rest; result = failed }
        | some plain ↦
            let file' = file ++ take ch.chunk_size plain in
            let more = copy_chunks chs file' rest in
            (if leb ch.chunk_size (length plain)
              then more
              else record { file = file'; rest = rest; result = failed })
      ]
      else record { file = file; rest = rest; result = failed }

  finish : Content → String → Disk → Copied → Step
  unfolding close_signal
  finish c p files copied =
      let files' = insert (p, get_path c.digest) copied.file files in
      elim copied.result [
        | done ↦ elim (close_signal c) [
          | none ↦ record { content = c; files = files'; input = copied.rest; ending = panicked }
          | some c' ↦ record { content = c'; files = files'; input = copied.rest; ending = done }
        ]
        | failed ↦ record { content = c; files = files'; input = copied.rest; ending = failed }
        | panicked ↦ record { content = c; files = files'; input = copied.rest; ending = panicked }
      ]

  extract_regular : Content → Option String → Option String → Disk → List ℕ → Step
  unfolding finish copy_chunks
  extract_regular c (some p) (some base) files input =
      if os.mkdir_all p base
      then (if os.create p (get_path c.digest)
          then finish c p files (copy_chunks c.chunks [] input)
          else record { content = c; files = files; input = input; ending = failed })
      else record { content = c; files = files; input = input; ending = failed }
  extract_regular c _ _ files input = record {
    content = c;
    files = files;
    input = input;
    ending = panicked;
  }

  pub extract_content : Manager → Content → Disk → List ℕ → Step
  unfolding discard extract_regular get_path_by_stack get_base_dir
  extract_content m c files input = elim (get_elem? m.completed_stack c.stack) [
    | none ↦ record { content = c; files = files; input = input; ending = panicked }
    | some ignored ↦
        if ignored
        then discard c files input
        else extract_regular c (get_path_by_stack m c.stack) (get_base_dir c.digest) files input
  ]

  pub extract_contents : Manager → List Content → Disk → List ℕ → Extracted
  unfolding extract_content go_on
  extract_contents m [] files input = record {
    contents = [];
    files = files;
    input = input;
    ending = done;
  }
  extract_contents m (c ∷ cs) files input =
      let step = extract_content m c files input in
      go_on cs step (extract_contents m cs step.files step.input)

  -- The completion message of each layer; `completed_stack` is written by position.
  complete_layers : List ImageLayer → ℕ → List Bool → List Bool × Ending
  complete_layers [] idx completed = (completed, done)
  complete_layers (l ∷ ls) idx completed =
      let rest = complete_layers ls (idx + 1) (modify completed idx (λ _. true)) in
      if os.write_file l.local "completed.json"
      then (if ltb idx (length completed) then rest else (completed, panicked))
      else (completed, failed)

  pub extract : Manager → Disk → List ℕ → Result
  unfolding extract_contents complete_layers
  extract m files input =
      let e = extract_contents m m.contents files input in
      let m' = record m { contents = e.contents } in
      let (completed, ending) = complete_layers m.destination 0 m.completed_stack in
      let stopped : Result = record {
        manager = m';
        disk = e.files;
        connection = e.input;
        end = e.ending;
      } in
      elim e.ending [
        | done ↦ record {
          manager = record m' { completed_stack = completed };
          disk = e.files;
          connection = e.input;
          end = ending;
        }
        | failed ↦ stopped
        | panicked ↦ stopped
      ]
