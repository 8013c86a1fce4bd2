-- ===== src/Examples/Transfer.antt =====
-- One content of two chunks on its way from the proxy to the client (proxy/builder.go,
-- client/manager.go). The compression of the example puts a byte 31 before the bytes.
use starlight.Proxy.Bundle
use starlight.Proxy.Body
use starlight.Client.Receive.{Content, FileChunk}
use starlight.Client.Extract.{Manager, Os, done, get_path_by_stack, get_base_dir, extract_contents}
use starlight.Prelude.{
  pair_comparable, List, false, [], ℕ, true, Option, ◌∷◌, some, take, none, drop, ◌≡◌,
  if◌then◌else◌, ◌+◌, ◌==◌, nat_comparable, text_comparable, arith, length, refl, lookup, map, ◌++◌,
  All, inr,
}
use starlight.Client.Extract.Transfer.{received, Found, extract_contents-write_body}
use starlight.Proxy.Body.{write_body}
use starlight.Proxy.Body.Slices.{write_body-slices, write_body-content_at}
use starlight.Proxy.Delta.Payload.{payload_bytes}
use starlight.Client.Extract.Unpack.{delivered, ignored}

abbrev unmark : List ℕ → Option (List ℕ)
unmark [] = none
unmark (x ∷ xs) = if x == 31 then some xs else none

abbrev blob : List ℕ
blob = 0 ∷ 31 ∷ 10 ∷ 11 ∷ 31 ∷ 12 ∷ []

abbrev loaded_layer : Bundle.ImageLayer
loaded_layer = record {
  stack_index = 0;
  uncompressed_size = 6;
  serial = 2;
  hash = "sha256:2";
  available = false;
  blob = some blob;
}

abbrev first_chunk : Bundle.FileChunk
first_chunk = record { offset = 1; chunk_offset = 0; chunk_size = 2; compressed_size = 3 }

abbrev second_chunk : Bundle.FileChunk
second_chunk = record { offset = 4; chunk_offset = 2; chunk_size = 1; compressed_size = 2 }

abbrev content : Bundle.Content
content = record {
  first_file = 0;
  more_files = [];
  rank = 0;
  stack = 0;
  offset = 0;
  size = 5;
  chunks = first_chunk ∷ second_chunk ∷ [];
  digest = "sha256:0123456789abcdef";
}

abbrev read_layer : ℕ → List ℕ
read_layer _ = blob

abbrev uncompressed : Content → FileChunk → List ℕ
uncompressed c ch = take ch.chunk_size (drop (ch.offset + 1) blob)

abbrev willing : Os
willing = record { mkdir_all = λ _ _. true; create = λ _ _. true; write_file = λ _ _. true }

abbrev manager : Manager
manager = record {
  contents = received content ∷ [];
  destination = record { size = 6; serial = 2; hash = "sha256:2"; local = "layers/2" } ∷ [];
  layers = (2, record { size = 6; serial = 2; hash = "sha256:2"; local = "layers/2" }) ∷ [];
  stack_serial_map = 2 ∷ [];
  completed_stack = false ∷ [];
}

write_body-slices_example :
    write_body (loaded_layer ∷ []) (content ∷ [])
    ≡ record { bytes = 31 ∷ 10 ∷ 11 ∷ 31 ∷ 12 ∷ []; ending = Body.Ending.done }
write_body-slices_example =
    write_body-slices (loaded_layer ∷ []) (λ c. read_layer c.stack) (content ∷ [])
      ((loaded_layer, blob, refl, refl, refl, ((omega arith), ((omega arith), tt))), tt)

write_body-content_at_example :
    (length (write_body (loaded_layer ∷ []) (content ∷ [])).bytes ≡ payload_bytes (content ∷ []))
    × (take 5 (drop 0 (write_body (loaded_layer ∷ []) (content ∷ [])).bytes)
        ≡ 31 ∷ 10 ∷ 11 ∷ 31 ∷ 12 ∷ [])
write_body-content_at_example =
    write_body-content_at (loaded_layer ∷ []) (λ c. read_layer c.stack) (content ∷ []) 0 content
      ((loaded_layer, blob, refl, refl, refl, ((omega arith), ((omega arith), tt))), tt)
      (refl, refl, tt) refl

extract_contents-write_body_example :
    let e =
      extract_contents willing unmark manager
        (map received (content ∷ []))
        []
        ((write_body (loaded_layer ∷ []) (content ∷ [])).bytes ++ 99 ∷ []) in
    (e.ending ≡ done)
    × (e.input ≡ 99 ∷ [])
    × (e.contents ≡ map (delivered manager) (map received (content ∷ [])))
    × All
        (λ c. Found manager uncompressed e.files c (ignored manager c))
        (map received (content ∷ []))
unfolding get_path_by_stack get_base_dir lookup
extract_contents-write_body_example =
    extract_contents-write_body willing unmark (loaded_layer ∷ []) read_layer uncompressed manager
      (content ∷ []) [] (99 ∷ [])
      ((loaded_layer, blob, refl, refl, refl, ((omega arith), ((omega arith), tt))), tt)
      (((refl, refl, omega arith), ((refl, refl, omega arith), tt)), tt)
      (inr ("layers/2", "01234", refl, refl, refl, refl, refl, refl), tt) (tt, tt)
