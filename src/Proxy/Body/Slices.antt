-- ===== src/Proxy/Body/Slices.antt =====
-- What the body of the response is (proxy/builder.go).
use starlight.Prelude.{
  ℕ, zero, suc, ◌+◌, ◌-◌, ◌≤◌, ◌≡◌, refl, sym, ap, ◌∙◌, subst, Option, none, some, List, [], ◌∷◌,
  ◌++◌, map, arith, nat_comparable, text_comparable, length, get_elem?, take, drop, length-append,
  All, sum, length-take_le, All-imp, take_exactly,
}
use starlight.Proxy.Bundle.{ImageLayer, FileChunk, Content}
use starlight.Proxy.Body.{write_chunks, write_body, and_then, write_content, prefixed, done}
use starlight.Proxy.Delta.Payload.{payload_bytes, Contiguous, chunk_bytes}

-- The bytes of a layer that the section reader over its buffer gives.
abbrev pub readable : ImageLayer → List ℕ → List ℕ
readable l buffer = take l.uncompressed_size buffer

abbrev pub slice : List ℕ → FileChunk → List ℕ
slice sr ch = take ch.compressed_size (drop ch.offset sr)

abbrev pub slices : List ℕ → List FileChunk → List ℕ
slices sr [] = []
slices sr (ch ∷ chs) = slice sr ch ++ slices sr chs

abbrev pub Inside : List ℕ → FileChunk → Type 0
Inside sr ch = ch.offset + ch.compressed_size ≤ length sr

-- The layer of a content is loaded, and its chunks are inside.
abbrev pub Loaded : List ImageLayer → (Content → List ℕ) → Content → Type 0
Loaded layers at c =
    (l : ImageLayer) × (buffer : List ℕ) × (get_elem? layers c.stack ≡ some l)
    × (l.blob ≡ some buffer)
    × (at c ≡ readable l buffer)
    × All (Inside (at c)) c.chunks

abbrev pub body_of : (Content → List ℕ) → List Content → List ℕ
body_of at [] = []
body_of at (c ∷ cs) = slices (at c) c.chunks ++ body_of at cs

length-drop : (n : ℕ) (xs : List ℕ) → length (drop n xs) ≡ length xs - n
length-drop zero xs = omega arith
length-drop (suc n) [] = omega arith
length-drop (suc n) (x ∷ xs) = omega (arith, length-drop n xs)

take_twice : (n : ℕ) (xs : List ℕ) → take n (take n xs) ≡ take n xs
take_twice zero xs = refl
take_twice (suc n) [] = refl
take_twice (suc n) (x ∷ xs) = ap (λ l. x ∷ l) (take_twice n xs)

length-slice :
    (sr : List ℕ) (ch : FileChunk) → Inside sr ch → length (slice sr ch) ≡ ch.compressed_size
length-slice sr ch h =
    length-take_le ch.compressed_size (drop ch.offset sr) (omega (arith, length-drop ch.offset sr))

write_chunks-slices :
    (sr : List ℕ) (chs : List FileChunk)
    → All (Inside sr) chs
    → write_chunks sr chs ≡ record { bytes = slices sr chs; ending = done }
unfolding write_chunks and_then prefixed
write_chunks-slices sr [] h = refl
write_chunks-slices sr (ch ∷ chs) h = ground (
  arith,
  length-slice sr ch h.0,
  take_twice ch.compressed_size (drop ch.offset sr),
  write_chunks-slices sr chs h.1,
)

write_content-slices :
    (l : ImageLayer) (buffer : List ℕ) (c : Content)
    → l.blob ≡ some buffer
    → All (Inside (readable l buffer)) c.chunks
    → write_content (some l) c
      ≡ record { bytes = slices (readable l buffer) c.chunks; ending = done }
unfolding write_content
write_content-slices l buffer c e h = rw e (write_chunks-slices (readable l buffer) c.chunks h)

-- If the layer of every content is loaded and the chunks lie inside it, the handler ends well and has
-- written the chunks of the contents, one after another.
pub write_body-slices :
    (layers : List ImageLayer) (at : Content → List ℕ) (cs : List Content)
    → All (Loaded layers at) cs
    → write_body layers cs ≡ record { bytes = body_of at cs; ending = done }
unfolding write_body and_then prefixed
write_body-slices layers at [] h = refl
write_body-slices layers at (c ∷ cs) h =
    let (l, buffer, found, blob, read, inside) = h.0 in
    let first : write_content (get_elem? layers c.stack) c
        ≡ record { bytes = slices (at c) c.chunks; ending = done } =
      rw found (
        rw read (
          write_content-slices l buffer c blob
            (subst (λ sr. All (Inside sr) c.chunks) read inside))) in
    ground (arith, first, write_body-slices layers at cs h.1)

length-slices :
    (sr : List ℕ) (chs : List FileChunk)
    → All (Inside sr) chs
    → length (slices sr chs) ≡ sum (map (λ (x : FileChunk). x.compressed_size) chs)
length-slices sr [] h = refl
length-slices sr (ch ∷ chs) h = omega (
  arith,
  length-append (slice sr ch) (slices sr chs),
  length-slice sr ch h.0,
  length-slices sr chs h.1,
)

-- The chunks of a content lie inside the bytes that it is read from.
abbrev pub Fits : (Content → List ℕ) → Content → Type 0
Fits at c = All (Inside (at c)) c.chunks

length-body_of :
    (at : Content → List ℕ) (cs : List Content)
    → All (Fits at) cs
    → length (body_of at cs) ≡ payload_bytes cs
length-body_of at [] h = refl
length-body_of at (c ∷ cs) h = omega (
  arith,
  length-append (slices (at c) c.chunks) (body_of at cs),
  length-slices (at c) c.chunks h.0,
  length-body_of at cs h.1,
)

drop_past : (xs ys : List ℕ) (n : ℕ) → length xs ≤ n → drop n (xs ++ ys) ≡ drop (n - length xs) ys
drop_past [] ys n h = ap (λ m. drop m ys) (omega arith)
drop_past (x ∷ xs) ys zero h = absurd (omega (arith, h))
drop_past (x ∷ xs) ys (suc n) h =
    drop_past xs ys n (omega (arith, h)) ∙ ap (λ m. drop m ys) (omega arith)

same_content : (x c : Content) → some x ≡ some c → x ≡ c
same_content x c e = ap (λ (o : Option Content). elim o [ none ↦ x | some y ↦ y ]) e

Contiguous-after :
    (start : ℕ) (cs : List Content) (k : ℕ) (c : Content)
    → Contiguous start cs
    → get_elem? cs k ≡ some c
    → start ≤ c.offset
Contiguous-after start [] k c h e = cc
Contiguous-after start (x ∷ cs) zero c h e =
    subst (λ (y : Content). start ≤ y.offset) (same_content x c e) (omega (arith, h.0))
Contiguous-after start (x ∷ cs) (suc k) c h e =
    omega (arith, Contiguous-after (start + chunk_bytes x) cs k c h.2 e)

-- The bytes of the body from the offset of a content on, as many as its size, are its chunks.
content_at :
    (at : Content → List ℕ) (start : ℕ) (cs : List Content) (k : ℕ) (c : Content)
    → Contiguous start cs
    → All (Fits at) cs
    → get_elem? cs k ≡ some c
    → take c.size (drop (c.offset - start) (body_of at cs)) ≡ slices (at c) c.chunks
content_at at start [] k c h f e = cc
content_at at start (x ∷ cs) zero c h f e =
    let here : x.offset - start ≡ 0 = omega (arith, h.0) in
    let rest = body_of at cs in
    subst
      (λ (y : Content).
        take y.size (drop (y.offset - start) (slices (at x) x.chunks ++ rest))
        ≡ slices (at y) y.chunks)
      (same_content x c e)
      (rw here (
        take_exactly x.size (slices (at x) x.chunks) rest
          (length-slices (at x) x.chunks f.0 ∙ sym h.1)))
content_at at start (x ∷ cs) (suc k) c h f e =
    let behind = Contiguous-after (start + chunk_bytes x) cs k c h.2 e in
    let taken = length-slices (at x) x.chunks f.0 in
    let past =
      drop_past (slices (at x) x.chunks) (body_of at cs) (c.offset - start)
        (omega (arith, behind, taken)) in
    let moved : c.offset - start - length (slices (at x) x.chunks)
        ≡ c.offset - (start + chunk_bytes x) =
      omega (arith, taken) in
    ap (take c.size) past
    ∙ ap (λ n. take c.size (drop n (body_of at cs))) moved
    ∙ content_at at (start + chunk_bytes x) cs k c h.2 f.1 e

fits :
    (layers : List ImageLayer) (at : Content → List ℕ) (cs : List Content)
    → All (Loaded layers at) cs
    → All (Fits at) cs
fits layers at cs h = All-imp (λ c l. l.5) cs h

-- If the layer of every content is loaded, the chunks lie inside it and the contents lie one after
-- another from offset 0 on, then the handler has written as many bytes as the chunks have, and the
-- bytes from the offset of a content on, as many as its size says, are its chunks one after another.
pub write_body-content_at :
    (layers : List ImageLayer) (at : Content → List ℕ) (cs : List Content) (k : ℕ) (c : Content)
    → All (Loaded layers at) cs
    → Contiguous 0 cs
    → get_elem? cs k ≡ some c
    → (length (write_body layers cs).bytes ≡ payload_bytes cs)
      × (take c.size (drop c.offset (write_body layers cs).bytes) ≡ slices (at c) c.chunks)
write_body-content_at layers at cs k c h laid e = rw (write_body-slices layers at cs h) (
  length-body_of at cs (fits layers at cs h),
  ap (λ n. take c.size (drop n (body_of at cs))) (omega arith)
      ∙ content_at at 0 cs k c laid (fits layers at cs h) e,
)
