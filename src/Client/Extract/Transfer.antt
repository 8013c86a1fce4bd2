-- ===== src/Client/Extract/Transfer.antt =====
-- From the layers of the proxy to the files of the client: `WriteBody` of proxy/builder.go, and
-- `Extract` of client/manager.go on what it wrote.
use starlight.Prelude.{
  pair_comparable, ℕ, List, some, String, false, take, All, lookup, Apart, map, drop, ◌≢◌, ◌≡◌, ◌∷◌,
  Bool-cases, [], inl, inr, nat_comparable, text_comparable, ◌∙◌, refl, lookup-insert_other, Bool,
  lookup-insert_self, true, Option, ap, ◌++◌, subst, sym,
}
use starlight.Proxy.Body.Slices.{Loaded, body_of, slices, write_body-slices}
use starlight.Proxy.Body.{write_body}
use starlight.Client.Extract.{Manager, Disk, Os, extract_contents, done, Extracted}
use starlight.Client.Receive.{FileChunk, Content}
use starlight.Client.Extract.Unpack.{
  target, stored, ignored, plain, payload, packed, Packed, Acceptable, delivered,
  extract_contents-stored,
}
use mathlib.Core.Path.{ap₂}
use starlight.Proxy.Bundle

module _ (m : Manager) (b : Content → FileChunk → List ℕ) where
  lookup-stored_other :
      (k : String × String) (cs : List Content) (files : Disk)
      → All (λ c. k ≢ target m c) cs
      → lookup k (stored m b cs files) ≡ lookup k files
  lookup-stored_other k [] files h = refl
  lookup-stored_other k (c ∷ cs) files h = elim (Bool-cases (ignored m c)) [
    | inl p ↦ rw p (lookup-stored_other k cs files h.1)
    | inr p ↦ rw p (
        lookup-stored_other k cs _ h.1
        ∙ lookup-insert_other (target m c) k (plain (b c) c.chunks) files h.0)
  ]

  -- What is found afterwards at the place of a content whose layer was not complete before.
  abbrev pub Found : Disk → Content → Bool → Type 0
  Found files c true = Unit
  Found files c false = lookup (target m c) files ≡ some (plain (b c) c.chunks)

  lookup-stored :
      (cs : List Content) (files : Disk)
      → Apart (λ c d. target m c ≢ target m d) cs
      → All (λ c. Found (stored m b cs files) c (ignored m c)) cs
  lookup-stored [] files h = tt
  lookup-stored (c ∷ cs) files h = (here, lookup-stored cs _ h.1)
    where
      here : Found (stored m b (c ∷ cs) files) c (ignored m c)
      here = elim (Bool-cases (ignored m c)) [
        | inl p ↦ rw p tt
        | inr p ↦ rw p (
            lookup-stored_other (target m c) cs _ h.0
            ∙ lookup-insert_self (target m c) (plain (b c) c.chunks) files)
      ]

-- A bundle as the client reads it: the fields of the same JSON names, and no signal yet.
abbrev pub received_chunk : Bundle.FileChunk → FileChunk
received_chunk ch = record {
  offset = ch.offset;
  chunk_offset = ch.chunk_offset;
  chunk_size = ch.chunk_size;
  compressed_size = ch.compressed_size;
}

abbrev pub received : Bundle.Content → Content
received c = record {
  signal = some false;
  stack = c.stack;
  offset = c.offset;
  size = c.size;
  chunks = map received_chunk c.chunks;
  digest = c.digest;
}

-- The compressed form of a chunk in a layer, by the layer's stack.
abbrev pub in_layer : (ℕ → List ℕ) → Content → FileChunk → List ℕ
in_layer at c ch = take ch.compressed_size (drop ch.offset (at c.stack))

payload-body_of :
    (at : ℕ → List ℕ) (cs : List Bundle.Content)
    → body_of (λ c. at c.stack) cs ≡ payload (in_layer at) (map received cs)
payload-body_of at [] = refl
payload-body_of at (c ∷ cs) = ap₂ (λ x y. x ++ y) (pieces c.chunks) (payload-body_of at cs)
  where
    pieces :
        (chs : List Bundle.FileChunk)
        → slices (at c.stack) chs ≡ packed (in_layer at (received c)) (map received_chunk chs)
    pieces [] = refl
    pieces (ch ∷ chs) =
        ap (λ l. take ch.compressed_size (drop ch.offset (at c.stack)) ++ l) (pieces chs)

module _ (os : Os) (gunzip : List ℕ → Option (List ℕ)) (layers : List Bundle.ImageLayer)
    (at : ℕ → List ℕ) (b : Content → FileChunk → List ℕ) (m : Manager) where
  -- If the proxy has loaded the layers that the contents lie in and their chunks are gzip files in
  -- them, no two contents go to one place, and the client can accept each, then the client unpacks
  -- what the proxy wrote to the last byte: it does not fail, what follows on the connection is left
  -- there, the contents are delivered, and the file of each content that is not in a complete layer
  -- has the bytes that its chunks have uncompressed.
  pub extract_contents-write_body :
      (cs : List Bundle.Content) (files : Disk) (rest : List ℕ)
      → All (Loaded layers (λ c. at c.stack)) cs
      → All (λ c. All (Packed os gunzip (in_layer at c) (b c)) c.chunks) (map received cs)
      → All (Acceptable os gunzip m) (map received cs)
      → Apart (λ c d. target m c ≢ target m d) (map received cs)
      → let e =
          extract_contents os gunzip m
            (map received cs)
            files
            ((write_body layers cs).bytes ++ rest) in
        (e.ending ≡ done)
        × (e.input ≡ rest)
        × (e.contents ≡ map (delivered m) (map received cs))
        × All (λ c. Found m b e.files c (ignored m c)) (map received cs)
  extract_contents-write_body cs files rest loaded packs accepts apart =
      let sent =
        ap (λ w. w.bytes) (write_body-slices layers (λ c. at c.stack) cs loaded)
        ∙ payload-body_of at cs in
      let e =
        ap (λ l. extract_contents os gunzip m (map received cs) files (l ++ rest)) sent
        ∙ extract_contents-stored os gunzip (in_layer at) b m (map received cs) files rest packs
            accepts in
      (
        ap (λ (x : Extracted). x.ending) e,
        ap (λ (x : Extracted). x.input) e,
        ap (λ (x : Extracted). x.contents) e,
        subst (λ (f : Disk). All (λ c. Found m b f c (ignored m c)) (map received cs))
            (sym (ap (λ (x : Extracted). x.files) e))
            (lookup-stored m b (map received cs) files apart),
      )
