-- ===== src/Proxy/Delta/Payload.antt =====
-- Step 4 of `computeDelta`: the payload of the delta bundle (proxy/builder.go).
use starlight.Prelude.{
  ℕ, ◌+◌, ◌^◌, ◌<◌, ◌≡◌, refl, subst, List, [], ◌∷◌, map, arith, nat_comparable, text_comparable,
  add64, write_all, All, sum,
}
use starlight.Proxy.Delta.{
  deref, set_payload, add_sizes, size_of, chunks_of, parsed_chunk, place, lay_out, Layout,
}
use starlight.Proxy.Bundle.{Content, FileChunkParsing, File, FileChunk, RankedFile, files_of}

-- The bytes that a content takes in the payload, and the bytes that a list of them takes.
abbrev pub chunk_bytes : Content → ℕ
chunk_bytes c = sum (map (λ (x : FileChunk). x.compressed_size) c.chunks)

abbrev pub payload_bytes : List Content → ℕ
payload_bytes [] = 0
payload_bytes (c ∷ cs) = chunk_bytes c + payload_bytes cs

-- Each content begins where the one before it ends, and its size is that of its chunks.
abbrev pub Contiguous : ℕ → List Content → Type 0
Contiguous start [] = Unit
Contiguous start (c ∷ cs) =
    (c.offset ≡ start) × (c.size ≡ chunk_bytes c) × Contiguous (start + chunk_bytes c) cs

add_sizes-sum :
    (cs : List FileChunkParsing) (s : ℕ)
    → s + sum (map (λ (x : FileChunk). x.compressed_size) (map parsed_chunk cs)) < 2 ^ 63
    → add_sizes s cs ≡ s + sum (map (λ (x : FileChunk). x.compressed_size) (map parsed_chunk cs))
unfolding add_sizes parsed_chunk
add_sizes-sum [] s h = omega arith
add_sizes-sum (c ∷ cs) s h = omega (arith, add_sizes-sum cs (add64 s c.compressed_size))

size_of-sum :
    (f : File) (cs : List FileChunkParsing)
    → sum (map (λ (x : FileChunk). x.compressed_size) (chunks_of f cs)) < 2 ^ 63
    → size_of 0 f cs ≡ sum (map (λ (x : FileChunk). x.compressed_size) (chunks_of f cs))
unfolding size_of chunks_of
size_of-sum f [] h = omega arith
size_of-sum f (c ∷ cs) h = omega (arith, add_sizes-sum (c ∷ cs) 0 (omega arith))

abbrev pub IsEmpty : Content → Type 0
IsEmpty c = c.size ≡ 0

size-place :
    (offset : ℕ) (f : File) (c : Content)
    → IsEmpty c
    → chunk_bytes (place offset f c) < 2 ^ 63
    → (place offset f c).size ≡ chunk_bytes (place offset f c)
unfolding place
size-place offset f c e h = rw e (size_of-sum f f.parsing_chunks h)

offset-place : (offset : ℕ) (f : File) (c : Content) → (place offset f c).offset ≡ offset
unfolding place
offset-place offset f c = refl

module _ (c : Content) (start : ℕ) (rest : Layout) (offset : c.offset ≡ start)
    (size : c.size ≡ chunk_bytes c)
    (fits : start + (chunk_bytes c + payload_bytes rest.contents) < 2 ^ 63) where
  next_offset : add64 start c.size ≡ start + chunk_bytes c
  next_offset = omega (arith, size, fits)

  Contiguous-next :
      Contiguous (add64 start c.size) rest.contents
        × (rest.body_length ≡ add64 start c.size + payload_bytes rest.contents)
      → Contiguous start (c ∷ rest.contents)
        × (rest.body_length ≡ start + (chunk_bytes c + payload_bytes rest.contents))
  Contiguous-next (laid, total) = (
    (offset, size, subst (λ n. Contiguous n rest.contents) next_offset laid),
    omega (arith, total, next_offset),
  )

-- If no content has a size yet and the payload is below 2^63 bytes, then the contents lie one after
-- another from `start` on with no gap, each with the size of its chunks, and the body length is the
-- number of bytes of all chunks: no sum wraps around.
pub lay_out-Contiguous :
    (cs : List Content) (idx start : ℕ) (h : List RankedFile)
    → All IsEmpty cs
    → start + payload_bytes (lay_out idx start cs h).contents < 2 ^ 63
    → Contiguous start (lay_out idx start cs h).contents
      × ((lay_out idx start cs h).body_length
          ≡ start + payload_bytes (lay_out idx start cs h).contents)
unfolding lay_out
lay_out-Contiguous [] idx start h e b = (tt, omega arith)
lay_out-Contiguous (c ∷ cs) idx start h e b =
    let h' = write_all (set_payload c.stack idx) (files_of c) h in
    let f = (deref h' c.first_file).file in
    let c' = place start f c in
    let rest = lay_out (idx + 1) (add64 start c'.size) cs h' in
    let size = size-place start f c e.0 (omega (arith, b)) in
    Contiguous-next c' start rest (offset-place start f c) size b (
      lay_out-Contiguous cs (idx + 1) (add64 start c'.size) h' e.1
        (omega (arith, b, next_offset c' start rest (offset-place start f c) size b)))
