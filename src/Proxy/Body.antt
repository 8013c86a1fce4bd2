-- ===== src/Proxy/Body.antt =====
-- The body of the response, `WriteBody` of proxy/builder.go. A section reader and `io.CopyN` of the
-- standard library read the bytes of a layer's buffer; `io.CopyN` has written what there was when it
-- fails.
pub mod Slices
use starlight.Prelude.{
  ℕ, Option, none, some, List, [], ◌∷◌, ◌++◌, leb, nat_comparable, text_comparable, if◌then◌else◌,
  length, get_elem?, take, drop,
}
use starlight.Proxy.Bundle.{FileChunk, ImageLayer, Content}

-- io.NewSectionReader(r, offset, n)
abbrev pub section : ℕ → ℕ → List ℕ → List ℕ
section offset n r = take n (drop offset r)

-- What a handler wrote to the connection, and how it ended.
pub data Ending : Type 0 where
  done : Ending
  -- "failed to copy chunk at [%d] for file [%s]"
  copy_failed : Ending
  -- "layer %d not found for file %s (ref:%d)"
  layer_not_found : Ending
  -- an index out of range
  panicked : Ending

pub record Written : Type 0 where
  pub bytes : List ℕ
  pub ending : Ending

prefixed : List ℕ → Written → Written
prefixed xs w = record w { bytes = xs ++ w.bytes }

-- The rest runs if what was written first ended well.
and_then : Written → Written → Written
unfolding prefixed
and_then a b = elim a.ending [
  | done ↦ prefixed a.bytes b
  | copy_failed ↦ a
  | layer_not_found ↦ a
  | panicked ↦ a
]

pub write_chunks : List ℕ → List FileChunk → Written
unfolding and_then
write_chunks sr [] = record { bytes = []; ending = done }
write_chunks sr (chunk ∷ chunks) =
    let ssr = section chunk.offset chunk.compressed_size sr in
    let copied : Written = record {
      bytes = take chunk.compressed_size ssr;
      ending = if leb chunk.compressed_size (length ssr) then done else copy_failed;
    } in
    and_then copied (write_chunks sr chunks)

-- A blob is the buffer of a cache that was loaded. A cache without a buffer would be a panic here; it
-- is not represented.
write_content : Option ImageLayer → Content → Written
unfolding write_chunks
write_content none c = record { bytes = []; ending = panicked }
write_content (some layer) c = elim layer.blob [
  | none ↦ record { bytes = []; ending = layer_not_found }
  | some buffer ↦ write_chunks (section 0 layer.uncompressed_size buffer) c.chunks
]

pub write_body : List ImageLayer → List Content → Written
unfolding write_content and_then
write_body layers [] = record { bytes = []; ending = done }
write_body layers (c ∷ cs) =
    and_then (write_content (get_elem? layers c.stack) c) (write_body layers cs)
