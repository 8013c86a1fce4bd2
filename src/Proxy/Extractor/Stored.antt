-- ===== src/Proxy/Extractor/Stored.antt =====
-- What saving the layers of an image leaves in the tables (proxy/extractor.go).
use starlight.Prelude.{
  ℕ, zero, suc, sym, get_or, All-imp, String, ◌≡◌, refl, ap, ◌∙◌, ◌≢◌, some, List, [], ◌∷◌, arith,
  ◌==◌, nat_comparable, text_comparable, ==_self, ok, All, Apart, Map, if◌then◌else◌,
}
use starlight.Proxy.Bundle.{File}
use starlight.Proxy.Database.{Database, find_filesystem}
use starlight.Proxy.Database.Writing.{find_blob, Tables, insert_files}
use starlight.Proxy.Database.Writing.Laws.{
  Fit, Placed, layer_at, blob, insert_layer-Placed, Fit-insert_files, insert_files_layers,
}
use starlight.Proxy.Extractor.{
  Toc, SourceLayer, add_chunks, read_toc, with_layer, save_known, save_layer, save_layers,
  after_layer, first,
}

-- The registry has the layer's size, digest and table of contents, whose chunks all belong to an
-- entry.
pub record Readable (l : SourceLayer) : Type 0 where
  pub size : ℕ
  pub digest : String
  pub toc : Toc
  pub buffer : Map String File
  pub has_size : l.size ≡ some size
  pub has_digest : l.digest ≡ some digest
  pub has_toc : l.toc ≡ some toc
  pub reads : add_chunks toc.chunks toc.entries ≡ some buffer

-- The image has at the stack a filesystem of the layer's digest and size.
pub record Held (d : Database) (image idx : ℕ) (l : SourceLayer) : Type 0 where
  pub id : ℕ
  pub size : ℕ
  pub digest : String
  pub has_size : l.size ≡ some size
  pub has_digest : l.digest ≡ some digest
  pub refers : layer_at image idx d.layers ≡ some id
  pub has : find_filesystem d.filesystems id ≡ some (blob id digest size)

-- Two layers that differ in the digest or in the size.
abbrev pub Different : SourceLayer → SourceLayer → Type 0
Different l m = l.digest ≡ m.digest → l.size ≢ m.size

-- The two states of the tables find the same for the layer.
abbrev pub Agree : Tables → Tables → SourceLayer → Type 0
Agree s t l =
    (size : ℕ) (digest : String)
    → l.size ≡ some size
    → l.digest ≡ some digest
    → find_blob digest size s.database.filesystems ≡ find_blob digest size t.database.filesystems

record SavedLayer (seen t : Tables) (image idx : ℕ) (l : SourceLayer) : Type 0 where
  after : Tables
  answer : save_layer image idx l seen t ≡ (after, ok tt)
  agrees : (m : SourceLayer) → Different l m → Agree t after m
  fit : Fit after
  held : Held after.database image idx l
  others :
      (i : ℕ) (m : SourceLayer)
      → i ≢ idx
      → Held t.database image i m
      → Held after.database image i m

module _ (seen t : Tables) (image idx : ℕ) (l : SourceLayer) (h : Fit t) (r : Readable l)
    (same : Agree seen t l) where
  placed : Placed seen t image idx r.digest r.size
  placed =
      insert_layer-Placed r.size image idx r.digest seen t h
        (same r.size r.digest r.has_size r.has_digest)

  written : Tables
  written = insert_files placed.id r.buffer placed.after

  save_layer-written : save_layer image idx l seen t ≡ (written, ok tt)
  unfolding save_layer save_known with_layer read_toc placed written
  save_layer-written =
      ap (λ s. save_known image idx s l.digest l.toc seen t) r.has_size
      ∙ ap (λ d. save_known image idx (some r.size) d l.toc seen t) r.has_digest
      ∙ ap (λ c. save_known image idx (some r.size) (some r.digest) c seen t) r.has_toc
      ∙ ap (with_layer (some r.toc) t) placed.answer
      ∙ rw (with_layer, read_toc, r.reads) refl

  written_layers :
      (i : ℕ)
      → layer_at image i written.database.layers
        ≡ (if idx == i then some placed.id else layer_at image i t.database.layers)
  unfolding written
  written_layers i =
      ap (layer_at image i) (insert_files_layers placed.id r.buffer placed.after).0
      ∙ placed.placed image i
      ∙ ap (λ b. if b then some placed.id else layer_at image i t.database.layers)
          (rw (==_self image) refl)

  written_has :
      (id : ℕ)
      → find_filesystem written.database.filesystems id
        ≡ find_filesystem placed.after.database.filesystems id
  unfolding written
  written_has id =
      ap (λ fs. find_filesystem fs id) (insert_files_layers placed.id r.buffer placed.after).1

  saved_layer : SavedLayer seen t image idx l
  unfolding written
  saved_layer = record {
    after = written;
    answer = save_layer-written;
    agrees = λ m d size digest p q. sym (
        ap (find_blob digest size) (insert_files_layers placed.id r.buffer placed.after).1
        ∙ placed.blobs digest size
            (λ e f. d (r.has_digest ∙ ap some e ∙ sym q) (r.has_size ∙ ap some f ∙ sym p)));
    fit = Fit-insert_files placed.id r.buffer placed.after placed.fit;
    held = record {
      id = placed.id;
      size = r.size;
      digest = r.digest;
      has_size = r.has_size;
      has_digest = r.has_digest;
      refers = written_layers idx ∙ rw (==_self idx) refl;
      has = written_has placed.id ∙ placed.has;
    };
    others = λ i m n held. record {
      id = held.id;
      size = held.size;
      digest = held.digest;
      has_size = held.has_size;
      has_digest = held.has_digest;
      refers = written_layers i ∙ ground (arith, n, held.refers);
      has = written_has held.id ∙ placed.retains held.id _ held.has;
    };
  }

pub record SavedLayers (lag : ℕ → ℕ) (image : ℕ) (ls : List (ℕ × SourceLayer)) (older : List Tables)
    (t : Tables) : Type 0 where
  pub after : Tables
  pub answer : save_layers lag image ls older t ≡ (after, ok tt)
  pub fit : Fit after
  pub held : All (λ p. Held after.database image p.0 p.1) ls
  pub others :
      (i : ℕ) (m : SourceLayer)
      → All (λ p. i ≢ p.0) ls
      → Held t.database image i m
      → Held after.database image i m

All-get_or :
    (P : Tables → Type 0) (xs : List Tables) (i : ℕ) (d : Tables)
    → All P xs
    → P d
    → P (get_or xs i d)
All-get_or P [] i d h p = p
All-get_or P (x ∷ xs) zero d h p = h.0
All-get_or P (x ∷ xs) (suc i) d h p = All-get_or P xs i d h.1 p

-- Two numbered layers at different places that differ.
abbrev pub Distinct : ℕ × SourceLayer → ℕ × SourceLayer → Type 0
Distinct p q = (p.0 ≢ q.0) × Different p.1 q.1

-- No lookup before is out of date for the layers that are still to come.
abbrev pub Current : Tables → List Tables → List (ℕ × SourceLayer) → Type 0
Current t older = All (λ p. All (λ s. Agree s t p.1) older)

Agree-next :
    (t u : Tables) (m : SourceLayer) (older : List Tables)
    → Agree t u m
    → All (λ s. Agree s t m) older
    → All (λ s. Agree s u m) (t ∷ older)
Agree-next t u m older a h =
    (a, All-imp (λ s b size digest p q. b size digest p q ∙ a size digest p q) older h)

Current-next :
    (t u : Tables) (l : SourceLayer) (idx : ℕ) (older : List Tables) (more : List (ℕ × SourceLayer))
    → ((m : SourceLayer) → Different l m → Agree t u m)
    → All (Distinct (idx, l)) more
    → Current t older more
    → Current u (t ∷ older) more
Current-next t u l idx older [] a d h = tt
Current-next t u l idx older ((i, m) ∷ more) a d h =
    (Agree-next t u m older (a m d.0.1) h.0, Current-next t u l idx older more a d.1 h.1)

pub saved_layers :
    (lag : ℕ → ℕ) (image : ℕ) (ls : List (ℕ × SourceLayer)) (older : List Tables) (t : Tables)
    → Fit t
    → All (λ p. Readable p.1) ls
    → Apart Distinct ls
    → Current t older ls
    → SavedLayers lag image ls older t
unfolding save_layers after_layer first
saved_layers lag image [] older t h r a k = record {
  after = t;
  answer = refl;
  fit = h;
  held = tt;
  others = λ i m n held. held;
}
saved_layers lag image ((idx, l) ∷ more) older t h r a k =
    let seen = get_or (t ∷ older) (lag idx) t in
    let same : Agree t t l = λ size digest p q. refl in
    let agrees = All-get_or (λ s. Agree s t l) (t ∷ older) (lag idx) t (same, k.0) same in
    let s = saved_layer seen t image idx l h r.0 agrees in
    let rest =
      saved_layers lag image more (t ∷ older) s.after s.fit r.1 a.1
        (Current-next t s.after l idx older more s.agrees a.0 k.1) in
    let apart = All-imp (λ q d. d.0) more a.0 in
    record {
      after = rest.after;
      answer =
          ap (λ x. after_layer x.1 (save_layers lag image more (t ∷ older) x.0) x.0) s.answer
          ∙ ap (λ x. after_layer (ok tt) x s.after) rest.answer;
      fit = rest.fit;
      held = (rest.others idx l apart s.held, rest.held);
      others = λ i m n held. rest.others i m n.1 (s.others i m n.0 held);
    }
