-- ===== src/Proxy/Extractor/Failing.antt =====
-- What is left of an image whose layers could not be saved, or not be listed (proxy/extractor.go).
use starlight.Prelude.{
  ℕ, String, ◌≡◌, refl, ap, ◌∙◌, ◌≢◌, true, false, Option, none, some, nat_comparable,
  text_comparable, Bool, [], ok, error, Error,
}
use starlight.Proxy.Catalog.{Catalog, find_image, get_image_by_digest}
use starlight.Proxy.Catalog.Lifecycle.{
  with_image, insert_image_fresh, insert_image_waiting, get_image_by_digest_waiting,
}
use starlight.Proxy.Database.Writing.{Tables}
use starlight.Proxy.Extractor.{
  Schedule, SourceImage, Extraction, save_layers, listed, inserted_or, image_of, save_image, cached,
  saved_as, save_toc_per_image,
}

-- The image has a digest, a configuration and a manifest of `n` layers.
pub record Described (img : SourceImage) (digest : String) (n : ℕ) : Type 0 where
  pub has_digest : img.digest ≡ some digest
  pub has_config : img.config ≡ true
  pub has_manifest : img.manifest_layers ≡ some n

module _ (name digest : String) (n : ℕ) (img : SourceImage) (c : Catalog)
    (described : Described img digest n) (fresh : find_image name digest c.images ≡ none) where
  pub save_image_new :
      save_image name img c ≡ ok (with_image name digest n false c, c.next_id, false)
  unfolding save_image image_of inserted_or
  save_image_new =
      ap (λ d. image_of name d img.config img.manifest_layers c) described.has_digest
      ∙ ap (λ b. image_of name (some digest) b img.manifest_layers c) described.has_config
      ∙ ap (λ m. image_of name (some digest) true m c) described.has_manifest
      ∙ ap inserted_or (insert_image_fresh name digest n c fresh)

  pub save_toc_new :
      (run : Schedule) (tag : String) (tables : Tables)
      → save_toc_per_image run name tag img (record { catalog = c; tables = tables })
        ≡ cached name tag img c.next_id
            (with_image name digest n false c)
            (save_layers run.lag c.next_id (run.order.visit (listed img.layers)) [] tables)
  unfolding save_toc_per_image saved_as
  save_toc_new run tag tables =
      ap (λ s. saved_as run name tag img s (record { catalog = c; tables = tables })) save_image_new

-- While an image is waiting, it cannot be saved.
save_image_waiting :
    (name digest : String) (n : ℕ) (c : Catalog) (next : SourceImage)
    → find_image name digest c.images ≡ none
    → c.next_id ≢ 0
    → next.digest ≡ some digest
    → (e : Error) × (save_image name next (with_image name digest n false c) ≡ error e)
unfolding save_image image_of inserted_or
save_image_waiting name digest n c next fresh nonzero q =
    let waiting = with_image name digest n false c in
    let (e, p) = refused next.config next.manifest_layers in
    (e, ap (λ d. image_of name d next.config next.manifest_layers waiting) q ∙ p)
  where
    refused :
        (b : Bool) (m : Option ℕ)
        → (e : Error) × (image_of name (some digest) b m (with_image name digest n false c)
            ≡ error e)
    refused false m = (_, refl)
    refused true none = (_, refl)
    refused true (some k) =
        (_, ap inserted_or (insert_image_waiting name digest n c fresh k nonzero))

-- If an image that is not in the catalog is saved and one of its layers fails, then the error is
-- answered and the image is left waiting: looking it up by its digest finds nothing, and every later
-- attempt to save it, under whatever tag and with whatever layers, answers an error and changes nothing.
pub save_toc_per_image_stuck :
    (run : Schedule) (name tag digest : String) (n : ℕ) (img : SourceImage) (e : Error)
    (x : Extraction)
    → Described img digest n
    → find_image name digest x.catalog.images ≡ none
    → x.catalog.next_id ≢ 0
    → (save_layers run.lag x.catalog.next_id (run.order.visit (listed img.layers)) [] x.tables).1
      ≡ error e
    → (y : Extraction) × (save_toc_per_image run name tag img x ≡ (y, error e))
      × (get_image_by_digest name digest y.catalog ≡ none)
      × ((again : Schedule) (other : String) (next : SourceImage)
          → next.digest ≡ some digest
          → (f : Error) × (save_toc_per_image again name other next y ≡ (y, error f)))
unfolding cached save_toc_per_image saved_as
save_toc_per_image_stuck run name tag digest n img e x described fresh nonzero fails =
    let c = x.catalog in
    let waiting = with_image name digest n false c in
    let t = save_layers run.lag c.next_id (run.order.visit (listed img.layers)) [] x.tables in
    let y : Extraction = record { catalog = waiting; tables = t.0 } in
    (
      y,
      save_toc_new name digest n img c described fresh run tag x.tables
          ∙ ap (λ r. cached name tag img c.next_id waiting (t.0, r)) fails,
      get_image_by_digest_waiting name digest n c fresh,
      λ again other next q.
          let (f, p) = save_image_waiting name digest n c next fresh nonzero q in
          (f, ap (λ s. saved_as again name other next s y) p),
    )
