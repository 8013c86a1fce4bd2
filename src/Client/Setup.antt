-- ===== src/Client/Setup.antt =====
-- What is done before the payload is unpacked: `Init` without the filesystem tree, and
-- `PrepareDirectories` (client/manager.go). The layer map of the client is given by the hashes it has.
pub mod Signals
pub mod Waiting
use mathlib.Core.Option
use starlight.Prelude.{
  ℕ, ◌+◌, String, Bool, false, Option, none, some, List, [], ◌∷◌, map, ltb, leb, ◌==◌,
  nat_comparable, text_comparable, if◌then◌else◌, length, modify, Map, insert,
}
use Prim.Native.String.{len, slice, ◌++◌ as append}
use starlight.Client.Extract.{Manager, Os}
use starlight.Client.Receive.{ImageLayer, Content, ReferencedFile, in_payload}

pub record Bundle : Type 0 where
  pub source : Option (List ImageLayer)
  pub destination : List ImageLayer
  pub contents : List Content
  pub requested_files : List ReferencedFile

-- `filepath.Join` leaves empty elements out; the root is clean.
unfoldable pub join_path : String → List String → String
join_path root [] = root
join_path root (x ∷ xs) = join_path (if x == "" then root else append root (append "/" x)) xs

-- The hash is sliced, which panics if it is too short.
get_directory : String → String → Option String
unfolding join_path
get_directory root hash =
    if leb 12 (len hash)
    then some (
        join_path root (
          "layers"
          ∷ slice hash 7 8
          ∷ slice hash 8 10
          ∷ slice hash 10 12
          ∷ slice hash 12 (len hash)
          ∷ []))
    else none

set_local : Option String → ImageLayer → Option ImageLayer
set_local none l = none
set_local (some p) l = some (record l { local = p })

cons_layer : Option ImageLayer → Option (List ImageLayer) → Option (List ImageLayer)
cons_layer (some l) (some ls) = some (l ∷ ls)
cons_layer _ _ = none

set_directories : String → List ImageLayer → Option (List ImageLayer)
unfolding get_directory set_local cons_layer
set_directories root [] = some []
set_directories root (l ∷ ls) =
    cons_layer (set_local (get_directory root l.hash) l) (set_directories root ls)

add_layers : List ImageLayer → Map ℕ ImageLayer → Map ℕ ImageLayer
add_layers [] m = m
add_layers (l ∷ ls) m = add_layers ls (insert l.serial l m)

or_no_layers : Option (List ImageLayer) → List ImageLayer
or_no_layers none = []
or_no_layers (some ls) = ls

-- content.Signal = make(chan interface{})
pub make_signal : Content → Content
make_signal c = record c { signal = some false }

-- The address of an element that is not there is a panic.
set_ready : ℕ → ReferencedFile → Option ReferencedFile
set_ready n f =
    if in_payload f
    then (if ltb f.payload_order n then some (record f { ready = some f.payload_order }) else none)
    else some (record f { ready = none })

cons_file : Option ReferencedFile → Option (List ReferencedFile) → Option (List ReferencedFile)
cons_file (some f) (some fs) = some (f ∷ fs)
cons_file _ _ = none

pub set_all_ready : ℕ → List ReferencedFile → Option (List ReferencedFile)
unfolding set_ready cons_file
set_all_ready n [] = some []
set_all_ready n (f ∷ fs) = cons_file (set_ready n f) (set_all_ready n fs)

initialised :
    Option (List ImageLayer)
    → Option (List ImageLayer)
    → List Content
    → Option (List ReferencedFile)
    → Option (Manager × List ReferencedFile)
unfolding add_layers
initialised (some destination) (some source) contents (some files) = some (
  record {
    contents = contents;
    destination = destination;
    layers = add_layers source (add_layers destination []);
    stack_serial_map = map (λ (l : ImageLayer). l.serial) destination;
    completed_stack = [];
  },
  files,
)
initialised _ _ _ _ = none

-- `ready` is whether the contents are there already; none is a panic.
unfoldable pub init : String → Bool → Bundle → Option (Manager × List ReferencedFile)
unfolding set_directories or_no_layers initialised make_signal set_all_ready
init root ready b =
    initialised (set_directories root b.destination) (set_directories root (or_no_layers b.source))
      (if ready then b.contents else map make_signal b.contents)
      (if ready
        then some b.requested_files
        else set_all_ready (length b.contents) b.requested_files)

-- `has` is whether the layer map has a hash. What is left of the manager after a failure is not
-- modelled.
mark_layers : Os → (String → Bool) → List ImageLayer → ℕ → List Bool → Option (List Bool)
mark_layers os has [] idx completed = some completed
mark_layers os has (l ∷ ls) idx completed =
    let rest = mark_layers os has ls (idx + 1) (modify completed idx (λ _. has l.hash)) in
    if has l.hash then rest else (if os.mkdir_all l.local "" then rest else none)

not_completed : List ℕ → List Bool
not_completed [] = []
not_completed (_ ∷ xs) = false ∷ not_completed xs

unfoldable pub prepare_directories : Os → (String → Bool) → Manager → Option Manager
unfolding mark_layers not_completed
prepare_directories os has m =
    Option.map (λ (done : List Bool). record m { completed_stack = done })
      (mark_layers os has m.destination 0 (not_completed m.stack_serial_map))
