-- ===== src/Examples/Setup.antt =====
-- A manager of two layers, one of which the client has, and two files of the payload
-- (client/manager.go).
use starlight.Prelude.{
  ℕ, String, ◌≡◌, refl, Bool, true, false, not, none, some, List, [], ◌∷◌, map, arith, ◌==◌,
  nat_comparable, text_comparable, All,
}
use starlight.Client.Extract.{Manager, Os}
use starlight.Client.Receive.{ImageLayer, ReferencedFile}
use starlight.Client.Setup.{prepare_directories, set_all_ready}
use starlight.Client.Setup.Signals.{prepare_directories-known}
use starlight.Client.Setup.Waiting.{waits_for, Waits, set_all_ready-Waits}

abbrev client_layer : ℕ → String → ImageLayer
client_layer serial hash = record { size = 6; serial = serial; hash = hash; local = hash }

abbrev two_layers : Manager
two_layers = record {
  contents = [];
  destination = client_layer 2 "sha256:2" ∷ client_layer 3 "sha256:3" ∷ [];
  layers = [];
  stack_serial_map = 2 ∷ 3 ∷ [];
  completed_stack = [];
}

abbrev mostly_willing : Os
mostly_willing = record {
  mkdir_all = λ p _. not (p == "sha256:9");
  create = λ _ _. true;
  write_file = λ _ _. true;
}

abbrev has_first : String → Bool
has_first hash = hash == "sha256:2"

prepare_directories-known_example :
    prepare_directories mostly_willing has_first two_layers
    ≡ some (record two_layers { completed_stack = true ∷ false ∷ [] })
prepare_directories-known_example =
    prepare_directories-known mostly_willing has_first two_layers (refl, (refl, tt)) refl

abbrev file_of : ℕ → ReferencedFile
file_of order = record {
  stack = 0;
  reference_fs_id = 0;
  reference_stack = 0;
  payload_order = order;
  ready = none;
}

abbrev two_files : List ReferencedFile
two_files = file_of 0 ∷ file_of 1 ∷ []

set_all_ready-Waits_example :
    (set_all_ready 2 two_files ≡ some (map waits_for two_files))
    × All Waits (map waits_for two_files)
set_all_ready-Waits_example = set_all_ready-Waits 2 two_files (omega arith, (omega arith, tt))
