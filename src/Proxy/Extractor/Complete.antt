-- ===== src/Proxy/Extractor/Complete.antt =====
-- Saving an image that the registry has in full (proxy/extractor.go).
use starlight.Prelude.{
  ℕ, zero, suc, ◌+◌, ◌<◌, String, ◌≡◌, sym, ap, ◌∙◌, subst, ◌≢◌, true, false, some, List, [], ◌∷◌,
  arith, nat_comparable, text_comparable, ok, All, Apart, get_elem?, All-perm, Apart-perm,
  Memᴰ-perm, All-Memᴰ, none,
}
use mathlib.Core.List.{Memᴰ}
use starlight.Proxy.Catalog.{find_image, get_image, get_image_by_digest, set_image_tag}
use starlight.Proxy.Catalog.Lifecycle.{with_image, insert_image_then_ready, Unused}
use starlight.Proxy.Catalog.Tags.{get_image_tagged, get_image_by_digest-set_image_tag}
use starlight.Proxy.Database.Writing.Laws.{Fit}
use starlight.Proxy.Extractor.{
  Schedule, SourceLayer, SourceImage, Extraction, save_layers, listed, numbered, platform_of,
  tag_image, enabled, cached, save_toc_per_image,
}
use starlight.Proxy.Extractor.Failing.{Described, save_toc_new}
use starlight.Proxy.Extractor.Stored.{
  Readable, Held, SavedLayers, saved_layers, Different, Distinct, Current,
}

module _ (P : SourceLayer → Type 0) where
  All-numbered : (k : ℕ) (ls : List SourceLayer) → All P ls → All (λ p. P p.1) (numbered k ls)
  unfolding numbered
  All-numbered k [] h = tt
  All-numbered k (l ∷ ls) h = (h.0, All-numbered (k + 1) ls h.1)

numbered_above :
    (j k : ℕ) (l : SourceLayer) (ls : List SourceLayer)
    → j < k
    → All (Different l) ls
    → All (Distinct (j, l)) (numbered k ls)
unfolding numbered
numbered_above j k l [] h d = tt
numbered_above j k l (m ∷ ls) h d =
    ((omega (arith, h), d.0), numbered_above j (k + 1) l ls (omega (arith, h)) d.1)

Apart-numbered :
    (k : ℕ) (ls : List SourceLayer) → Apart Different ls → Apart Distinct (numbered k ls)
unfolding numbered
Apart-numbered k [] d = tt
Apart-numbered k (l ∷ ls) d =
    (numbered_above k (k + 1) l ls (omega arith) d.0, Apart-numbered (k + 1) ls d.1)

Memᴰ-numbered :
    (k : ℕ) (ls : List SourceLayer) (i : ℕ) (l : SourceLayer)
    → get_elem? ls i ≡ some l
    → Memᴰ (i + k, l) (numbered k ls)
unfolding numbered
Memᴰ-numbered k [] i l q = cc
Memᴰ-numbered k (x ∷ ls) zero l q =
    Memᴰ.head (ap (λ j. (j, l)) (omega arith) ∙ ap (λ y. (k, y)) (sym (ground (arith, q))))
Memᴰ-numbered k (x ∷ ls) (suc i) l q =
    Memᴰ.tail (
      subst (λ j. Memᴰ (j, l) (numbered (k + 1) ls)) (omega arith) (Memᴰ-numbered (k + 1) ls i l q))

-- The layers are saved in whatever order the goroutines come.
saved_numbered :
    (run : Schedule) (image : ℕ) (ls : List SourceLayer) (x : Extraction)
    → Fit x.tables
    → All Readable ls
    → Apart Different ls
    → SavedLayers run.lag image (run.order.visit (numbered 0 ls)) [] x.tables
saved_numbered run image ls x fit h d =
    let p = run.order.visit_perm (numbered 0 ls) in
    saved_layers run.lag image (run.order.visit (numbered 0 ls)) [] x.tables fit
      (All-perm _ p (All-numbered Readable 0 ls h))
      (Apart-perm _ (λ a b n. (λ q. n.0 (sym q), λ q z. n.1 (sym q) (sym z))) p
        (Apart-numbered 0 ls d))
      (nothing_before (run.order.visit (numbered 0 ls)))
  where
    nothing_before : (l : List (ℕ × SourceLayer)) → Current x.tables [] l
    nothing_before [] = tt
    nothing_before (_ ∷ l) = (tt, nothing_before l)

-- If an image that is not in the catalog is saved, the registry has each of its layers, no two layers
-- have the same digest and size, and the numbers of the filesystems in the tables are in order, then the
-- call succeeds however the layers are saved at the same time, in whatever order they are committed and
-- however old the tables are that a layer's lookup saw: the tag finds the image and so does its digest,
-- and the image has at each stack a filesystem with the digest and the size of the layer at that place.
pub save_toc_per_image-Held :
    (run : Schedule) (name tag digest : String) (n : ℕ) (img : SourceImage) (ls : List SourceLayer)
    (x : Extraction)
    → Described img digest n
    → img.layers ≡ some ls
    → All Readable ls
    → Apart Different ls
    → Fit x.tables
    → find_image name digest x.catalog.images ≡ none
    → x.catalog.next_id ≢ 0
    → Unused x.catalog.next_id x.catalog.images
    → let serial = x.catalog.next_id in
      (y : Extraction) × (save_toc_per_image run name tag img x ≡ (y, ok tt))
      × (get_image name tag (platform_of img.platform) y.catalog ≡ some serial)
      × (get_image_by_digest name digest y.catalog ≡ some serial)
      × ((i : ℕ) (l : SourceLayer) → get_elem? ls i ≡ some l → Held y.tables.database serial i l)
unfolding cached enabled tag_image listed
save_toc_per_image-Held run name tag digest n img ls x described lists h d fit fresh nonzero
      unused =
    let c = x.catalog in
    let serial = c.next_id in
    let s = saved_numbered run serial ls x fit h d in
    let life = insert_image_then_ready name digest n c fresh nonzero unused in
    let platform = platform_of img.platform in
    let ready = with_image name digest n true c in
    let waiting = with_image name digest n false c in
    let y : Extraction = record {
      catalog = set_image_tag name tag platform serial ready;
      tables = s.after;
    } in
    (
      y,
      save_toc_new name digest n img c described fresh run tag x.tables
          ∙ ap
              (λ o.
                cached name tag img serial waiting
                  (save_layers run.lag serial (run.order.visit (listed o)) [] x.tables))
              lists
          ∙ ap (cached name tag img serial waiting) s.answer
          ∙ ap (λ o. enabled name tag img serial o (record { catalog = waiting; tables = s.after }))
              life.3,
      get_image_tagged name tag platform serial ready,
      get_image_by_digest-set_image_tag name tag platform name digest serial ready ∙ life.5,
      λ i l q.
          All-Memᴰ _
            (Memᴰ-perm (run.order.visit_perm (numbered 0 ls))
              (subst (λ j. Memᴰ (j, l) (numbered 0 ls)) (omega arith) (Memᴰ-numbered 0 ls i l q)))
            s.held,
    )
