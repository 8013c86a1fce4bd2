-- ===== src/Proxy/Catalog/Lifecycle.antt =====
-- The life of an image in the catalog (proxy/database.go).
use starlight.Prelude.{
  ℕ, ◌+◌, String, ◌≡◌, refl, ◌≢◌, inl, inr, Bool, true, false, none, some, List, [], ◌∷◌, ◌++◌,
  arith, nat_comparable, text_comparable, ==_self, if◌then◌else◌, Bool-cases, All,
}
use starlight.Proxy.Catalog.{
  find_image, has_key, find_ready, ImageRow, new_row, mark_ready, has_id, Catalog, insert_image,
  inserted, get_image_by_digest, set_image_ready,
}

find_image-append :
    (image hash : String) (rs : List ImageRow) (id nlayer : ℕ) (b : Bool)
    → find_image image hash rs ≡ none
    → let r = record (new_row id image hash nlayer) { ready = b } in
      find_image image hash (rs ++ r ∷ []) ≡ some r
unfolding find_image has_key
find_image-append image hash [] id nlayer b h = rw (==_self image, ==_self hash) refl
find_image-append image hash (x ∷ rs) id nlayer b h = elim (Bool-cases (has_key image hash x)) [
  | inl p ↦ ground (arith, h, p)
  | inr p ↦ rw p (find_image-append image hash rs id nlayer b (ground (arith, h, p)))
]

find_ready-append :
    (image hash : String) (rs : List ImageRow) (id nlayer : ℕ) (b : Bool)
    → find_image image hash rs ≡ none
    → find_ready image hash (rs ++ record (new_row id image hash nlayer) { ready = b } ∷ [])
      ≡ (if b then some id else none)
unfolding find_image find_ready has_key
find_ready-append image hash [] id nlayer b h = rw (==_self image, ==_self hash) (ground arith)
find_ready-append image hash (x ∷ rs) id nlayer b h = elim (Bool-cases (has_key image hash x)) [
  | inl p ↦ ground (arith, h, p)
  | inr p ↦ ground (arith, p, find_ready-append image hash rs id nlayer b (ground (arith, h, p)))
]

-- No image has the number.
abbrev pub Unused : ℕ → List ImageRow → Type 0
Unused id = All (λ (r : ImageRow). r.id ≢ id)

mark_ready-append :
    (rs : List ImageRow) (r : ImageRow) (b : Bool)
    → Unused r.id rs
    → mark_ready b r.id (rs ++ r ∷ []) ≡ rs ++ record r { ready = b } ∷ []
unfolding mark_ready
mark_ready-append [] r b u = rw (==_self r.id) refl
mark_ready-append (x ∷ rs) r b u = ground (arith, u.0, mark_ready-append rs r b u.1)

has_id-append : (rs : List ImageRow) (r : ImageRow) → has_id r.id (rs ++ r ∷ []) ≡ true
unfolding has_id
has_id-append [] r = ground arith
has_id-append (x ∷ rs) r = ground (arith, has_id-append rs r)

-- The catalog after the image is inserted, and whether it is ready.
abbrev pub with_image : String → String → ℕ → Bool → Catalog → Catalog
with_image image hash nlayer b c = record c {
  images = c.images ++ record (new_row c.next_id image hash nlayer) { ready = b } ∷ [];
  next_id = c.next_id + 1;
}

-- An image that is not in the catalog is inserted, and while it waits it is not inserted again and
-- not found.
module _ (image hash : String) (n : ℕ) (c : Catalog)
    (fresh : find_image image hash c.images ≡ none) where
  pub insert_image_fresh :
      insert_image image hash n c ≡ some (with_image image hash n false c, c.next_id, false)
  unfolding insert_image inserted
  insert_image_fresh = rw fresh refl

  pub insert_image_waiting :
      (k : ℕ) → c.next_id ≢ 0 → insert_image image hash k (with_image image hash n false c) ≡ none
  unfolding insert_image inserted
  insert_image_waiting k nonzero =
      rw (find_image-append image hash c.images c.next_id n false fresh) (ground (arith, nonzero))

  pub get_image_by_digest_waiting :
      get_image_by_digest image hash (with_image image hash n false c) ≡ none
  unfolding get_image_by_digest
  get_image_by_digest_waiting = find_ready-append image hash c.images c.next_id n false fresh

-- If the next number of the catalog is not 0 and no image has it, then an image that is not in the
-- catalog gets this number when it is inserted. Until it is marked as ready, inserting it again is an
-- error and looking it up by its digest finds nothing; marking it succeeds, and after that inserting it
-- returns its number as existing, changing nothing, and looking it up finds it.
pub insert_image_then_ready :
    (image hash : String) (nlayer : ℕ) (c : Catalog)
    → find_image image hash c.images ≡ none
    → c.next_id ≢ 0
    → Unused c.next_id c.images
    → let waiting = with_image image hash nlayer false c in
      let ready = with_image image hash nlayer true c in
      (insert_image image hash nlayer c ≡ some (waiting, c.next_id, false))
      × (insert_image image hash nlayer waiting ≡ none)
      × (get_image_by_digest image hash waiting ≡ none)
      × (set_image_ready true c.next_id waiting ≡ some ready)
      × (insert_image image hash nlayer ready ≡ some (ready, c.next_id, true))
      × (get_image_by_digest image hash ready ≡ some c.next_id)
unfolding insert_image inserted get_image_by_digest set_image_ready
insert_image_then_ready image hash nlayer c fresh nonzero unused =
    let id = c.next_id in
    (
      insert_image_fresh image hash nlayer c fresh,
      insert_image_waiting image hash nlayer c fresh nlayer nonzero,
      get_image_by_digest_waiting image hash nlayer c fresh,
      rw
          (
            has_id-append c.images (new_row id image hash nlayer),
            mark_ready-append c.images (new_row id image hash nlayer) true unused,
          )
          refl,
      rw (find_image-append image hash c.images id nlayer true fresh) (ground (arith, nonzero)),
      find_ready-append image hash c.images id nlayer true fresh,
    )
