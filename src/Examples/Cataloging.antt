-- ===== src/Examples/Cataloging.antt =====
-- A catalog of one image and one tag (proxy/database.go).
use starlight.Prelude.{
  ◌≡◌, refl, true, false, none, some, [], ◌∷◌, arith, nat_comparable, text_comparable,
}
use starlight.Proxy.Catalog.{
  Catalog, find_image, get_image, set_image_tag, insert_image, get_image_by_digest, set_image_ready,
}
use starlight.Proxy.Catalog.Lifecycle.{with_image, insert_image_then_ready}
use starlight.Proxy.Catalog.Tags.{get_image-set_image_tag}

abbrev catalog : Catalog
catalog = record {
  images = record { id = 1; image = "redis"; hash = "sha256:a"; ready = true; nlayer = 3 } ∷ [];
  tags = record { name = "redis"; tag = "7"; platform = "linux/amd64"; image_id = 1 } ∷ [];
  next_id = 2;
}

insert_image_then_ready_example :
    let waiting = with_image "redis" "sha256:b" 4 false catalog in
    let ready = with_image "redis" "sha256:b" 4 true catalog in
    (insert_image "redis" "sha256:b" 4 catalog ≡ some (waiting, 2, false))
    × (insert_image "redis" "sha256:b" 4 waiting ≡ none)
    × (get_image_by_digest "redis" "sha256:b" waiting ≡ none)
    × (set_image_ready true 2 waiting ≡ some ready)
    × (insert_image "redis" "sha256:b" 4 ready ≡ some (ready, 2, true))
    × (get_image_by_digest "redis" "sha256:b" ready ≡ some 2)
unfolding find_image
insert_image_then_ready_example =
    insert_image_then_ready "redis" "sha256:b" 4 catalog refl (omega arith) (omega arith, tt)

get_image-set_image_tag_example :
    get_image "redis" "7" "linux/amd64" (set_image_tag "redis" "7" "linux/amd64" 2 catalog) ≡ some 2
get_image-set_image_tag_example =
    get_image-set_image_tag "redis" "7" "linux/amd64" "redis" "7" "linux/amd64" 2 catalog
