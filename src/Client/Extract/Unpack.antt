-- ===== src/Client/Extract/Unpack.antt =====
-- What unpacking a whole payload does (`Extract` of client/manager.go).
use starlight.Prelude.{
  ℕ, ◌^◌, ◌≤◌, ◌<◌, String, ◌≡◌, refl, ◌⊎◌, Bool, true, false, Option, none, some, List, [], ◌∷◌,
  ◌++◌, map, append-nil, append_assoc, arith, nat_comparable, text_comparable, if◌then◌else◌,
  length, get_elem?, take, length-append, All, sum, insert, take_exactly, drop_exactly,
  pair_comparable, leb-true, ap, ◌∙◌, sym, inl, inr,
}
use starlight.Client.Receive.{FileChunk, Content}
use starlight.Client.Extract.{
  Manager, Os, copy_chunks, total_compressed_size, get_path_by_stack, Disk, done, get_path,
  get_base_dir, Step, extract_content, discard, extract_regular, finish, close_signal,
  extract_contents, go_on,
}

abbrev pub packed : (FileChunk → List ℕ) → List FileChunk → List ℕ
packed z [] = []
packed z (ch ∷ chs) = z ch ++ packed z chs

abbrev pub plain : (FileChunk → List ℕ) → List FileChunk → List ℕ
plain b [] = []
plain b (ch ∷ chs) = take ch.chunk_size (b ch) ++ plain b chs

abbrev pub or_false : Option Bool → Bool
or_false none = false
or_false (some b) = b

abbrev pub ignored : Manager → Content → Bool
ignored m c = or_false (get_elem? m.completed_stack c.stack)

abbrev pub or_empty : Option String → String
or_empty none = ""
or_empty (some s) = s

abbrev pub target : Manager → Content → String × String
target m c = (or_empty (get_path_by_stack m c.stack), get_path c.digest)

-- The content after its part of the payload: its signal is closed unless its layer was complete.
abbrev pub delivered : Manager → Content → Content
delivered m c = if ignored m c then c else record c { signal = some true }

abbrev pub stored : Manager → (Content → FileChunk → List ℕ) → List Content → Disk → Disk
stored m b [] files = files
stored m b (c ∷ cs) files =
    stored m b cs (if ignored m c then files else insert (target m c) (plain (b c) c.chunks) files)

module _ (os : Os) (gunzip : List ℕ → Option (List ℕ)) where
  -- The bytes `z ch` are the compressed form of a chunk with the bytes `b ch`.
  abbrev pub Packed : (FileChunk → List ℕ) → (FileChunk → List ℕ) → FileChunk → Type 0
  Packed z b ch =
      (length (z ch) ≡ ch.compressed_size)
      × (gunzip (z ch) ≡ some (b ch))
      × (ch.chunk_size ≤ length (b ch))

  -- No one is served by the content yet, and its file can be created.
  abbrev pub Creatable : Manager → Content → Type 0
  Creatable m c =
      (p : String) × (base : String) × (get_elem? m.completed_stack c.stack ≡ some false)
      × (get_path_by_stack m c.stack ≡ some p)
      × (get_base_dir c.digest ≡ some base)
      × (os.mkdir_all p base ≡ true)
      × (os.create p (get_path c.digest) ≡ true)
      × (c.signal ≡ some false)

  -- The content is of a layer that is complete and has a size that an int64 holds, or it can be
  -- created.
  abbrev pub Acceptable : Manager → Content → Type 0
  Acceptable m c =
      ((get_elem? m.completed_stack c.stack ≡ some true)
        × (sum (map (λ (x : FileChunk). x.compressed_size) c.chunks) < 2 ^ 63))
      ⊎ Creatable m c

  copy_chunks-append :
      (ch : FileChunk) (chs : List FileChunk) (file z tail p : List ℕ)
      → (length z ≡ ch.compressed_size) × (gunzip z ≡ some p) × (ch.chunk_size ≤ length p)
      → copy_chunks os gunzip (ch ∷ chs) file (z ++ tail)
        ≡ copy_chunks os gunzip chs (file ++ take ch.chunk_size p) tail
  unfolding copy_chunks
  copy_chunks-append ch chs file z tail p (whole, unzips, enough) =
      rw
        (
          take_exactly ch.compressed_size z tail whole,
          leb-true ch.compressed_size (length z) (omega (arith, whole)),
          unzips,
          leb-true ch.chunk_size (length p) enough,
        )
        (ap (copy_chunks os gunzip chs (file ++ take ch.chunk_size p))
          (drop_exactly ch.compressed_size z tail whole))

  copy_chunks-packed :
      (z b : FileChunk → List ℕ) (chs : List FileChunk) (file rest : List ℕ)
      → All (Packed z b) chs
      → copy_chunks os gunzip chs file (packed z chs ++ rest)
        ≡ record { file = file ++ plain b chs; rest = rest; result = done }
  unfolding copy_chunks
  copy_chunks-packed z b [] file rest h = ground (arith, append-nil file)
  copy_chunks-packed z b (ch ∷ chs) file rest h =
      ap (λ l. copy_chunks os gunzip (ch ∷ chs) file l) (append_assoc (z ch) (packed z chs) rest)
      ∙ copy_chunks-append ch chs file (z ch) (packed z chs ++ rest) (b ch) h.0
      ∙ copy_chunks-packed z b chs (file ++ take ch.chunk_size (b ch)) rest h.1
      ∙ ap (λ (f : List ℕ). record { file = f; rest = rest; result = done })
          (append_assoc file (take ch.chunk_size (b ch)) (plain b chs))

  length-packed :
      (z b : FileChunk → List ℕ) (chs : List FileChunk)
      → All (Packed z b) chs
      → length (packed z chs) ≡ sum (map (λ (x : FileChunk). x.compressed_size) chs)
  length-packed z b [] h = refl
  length-packed z b (ch ∷ chs) h =
      omega (arith, length-append (z ch) (packed z chs), h.0.0, length-packed z b chs h.1)

total_compressed_size-sum :
    (chs : List FileChunk)
    → sum (map (λ (x : FileChunk). x.compressed_size) chs) < 2 ^ 63
    → total_compressed_size chs ≡ sum (map (λ (x : FileChunk). x.compressed_size) chs)
unfolding total_compressed_size
total_compressed_size-sum [] s = refl
total_compressed_size-sum (ch ∷ chs) s =
    omega (arith, s, total_compressed_size-sum chs (omega (arith, s)))

abbrev after_if :
    Bool → Option String → (Content → FileChunk → List ℕ) → Content → Disk → List ℕ → Step
after_if skips p b c files rest = record {
  content = if skips then c else record c { signal = some true };
  files =
      if skips then files else insert (or_empty p, get_path c.digest) (plain (b c) c.chunks) files;
  input = rest;
  ending = done;
}

-- A content after which the payload goes on with `rest`.
abbrev after : Manager → (Content → FileChunk → List ℕ) → Content → Disk → List ℕ → Step
after m b c files rest = after_if (ignored m c) (get_path_by_stack m c.stack) b c files rest

finish_closed :
    (os : Os) (gunzip : List ℕ → Option (List ℕ)) (c : Content) (p : String) (files : Disk)
    (file rest : List ℕ)
    → c.signal ≡ some false
    → finish os gunzip c p files (record { file = file; rest = rest; result = done }) ≡ record {
      content = record c { signal = some true };
      files = insert (p, get_path c.digest) file files;
      input = rest;
      ending = done;
    }
unfolding finish close_signal
finish_closed os gunzip c p files file rest signal = rw (finish, close_signal, signal) refl

abbrev pub payload : (Content → FileChunk → List ℕ) → List Content → List ℕ
payload z [] = []
payload z (c ∷ cs) = packed (z c) c.chunks ++ payload z cs

module _ (os : Os) (gunzip : List ℕ → Option (List ℕ)) (z b : Content → FileChunk → List ℕ)
    (m : Manager) where
  skipped :
      (c : Content) (files : Disk) (rest : List ℕ)
      → All (Packed os gunzip (z c) (b c)) c.chunks
      → get_elem? m.completed_stack c.stack ≡ some true
      → sum (map (λ (x : FileChunk). x.compressed_size) c.chunks) < 2 ^ 63
      → extract_content os gunzip m c files (packed (z c) c.chunks ++ rest) ≡ after m b c files rest
  unfolding extract_content discard
  skipped c files rest h e s =
      let n = total_compressed_size-sum c.chunks s in
      let l = length-packed os gunzip (z c) (b c) c.chunks h in
      let whole = length-append (packed (z c) c.chunks) rest in
      rw
        (
          e,
          extract_content,
          drop_exactly (total_compressed_size c.chunks) (packed (z c) c.chunks) rest (l ∙ sym n),
          leb-true (total_compressed_size c.chunks) (length (packed (z c) c.chunks ++ rest))
              (omega (arith, n, l, whole)),
        )
        refl
      ∙ ap (λ o. after_if (or_false o) (get_path_by_stack m c.stack) b c files rest) (sym e)

  unpacked :
      (c : Content) (files : Disk) (rest : List ℕ)
      → All (Packed os gunzip (z c) (b c)) c.chunks
      → Creatable os gunzip m c
      → extract_content os gunzip m c files (packed (z c) c.chunks ++ rest) ≡ after m b c files rest
  unfolding extract_content extract_regular finish close_signal
  unpacked c files rest h (p, base, e, local, dir, made, created, signal) =
      rw (e, extract_content, local, dir, extract_regular, made, created)
        (ap (finish os gunzip c p files)
            (copy_chunks-packed os gunzip (z c) (b c) c.chunks [] rest h)
          ∙ finish_closed os gunzip c p files (plain (b c) c.chunks) rest signal)
      ∙ ap (λ o. after_if (or_false (some false)) o b c files rest) (sym local)
      ∙ ap (λ o. after_if (or_false o) (get_path_by_stack m c.stack) b c files rest) (sym e)

  extract_contents-done :
      (c : Content) (cs : List Content) (files : Disk) (input rest : List ℕ)
      → extract_content os gunzip m c files input ≡ after m b c files rest
      → extract_contents os gunzip m (c ∷ cs) files input
        ≡ go_on cs
            (after m b c files rest)
            (extract_contents os gunzip m cs (after m b c files rest).files rest)
  unfolding extract_contents
  extract_contents-done c cs files input rest e =
      ap (λ (s : Step). go_on cs s (extract_contents os gunzip m cs s.files s.input)) e

  content_unpacked :
      (c : Content) (files : Disk) (rest : List ℕ)
      → All (Packed os gunzip (z c) (b c)) c.chunks
      → Acceptable os gunzip m c
      → extract_content os gunzip m c files (packed (z c) c.chunks ++ rest) ≡ after m b c files rest
  content_unpacked c files rest h (inl (e, s)) = skipped c files rest h e s
  content_unpacked c files rest h (inr creatable) = unpacked c files rest h creatable

  -- If each chunk comes in its compressed form and each content is acceptable, then all of them are
  -- unpacked: nothing fails, the input is used up to `rest`, the signals are closed except those of
  -- complete layers, and the files are stored.
  pub extract_contents-stored :
      (cs : List Content) (files : Disk) (rest : List ℕ)
      → All (λ c. All (Packed os gunzip (z c) (b c)) c.chunks) cs
      → All (Acceptable os gunzip m) cs
      → extract_contents os gunzip m cs files (payload z cs ++ rest) ≡ record {
        contents = map (delivered m) cs;
        files = stored m b cs files;
        input = rest;
        ending = done;
      }
  unfolding extract_contents go_on
  extract_contents-stored [] files rest h a = refl
  extract_contents-stored (c ∷ cs) files rest h a =
      let files' = (after m b c files rest).files in
      let tail = payload z cs ++ rest in
      ap (extract_contents os gunzip m (c ∷ cs) files)
        (append_assoc (packed (z c) c.chunks) (payload z cs) rest)
      ∙ extract_contents-done c cs files (packed (z c) c.chunks ++ tail) tail
          (content_unpacked c files tail h.0 a.0)
      ∙ ap (go_on cs (after m b c files tail)) (extract_contents-stored cs files' rest h.1 a.1)
