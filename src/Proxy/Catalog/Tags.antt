-- ===== src/Proxy/Catalog/Tags.antt =====
-- Setting a tag and looking an image up by it (proxy/database.go).
use starlight.Prelude.{
  ℕ, String, ◌≡◌, refl, Bool, ◌&&◌, some, List, [], ◌∷◌, arith, ◌==◌, nat_comparable,
  text_comparable, if◌then◌else◌, ◌∙◌, ==_self,
}
use starlight.Proxy.Catalog.{
  find_tag, upsert, same_tag, TagRow, get_image, set_image_tag, Catalog, get_image_by_digest,
}
use text.Mathlib.TextEquality.{eq_iff}

-- The tag that is set, and whether another key is the same.
abbrev pub same_key : String × String × String → String × String × String → Bool
same_key (a, b, c) (x, y, z) = a == x && (b == y && c == z)

find_tag-upsert :
    (t : TagRow) (name tag platform : String) (rs : List TagRow)
    → find_tag name tag platform (upsert t rs) ≡ (
        if same_key (t.name, t.tag, t.platform) (name, tag, platform)
        then some t.image_id
        else find_tag name tag platform rs)
unfolding find_tag upsert same_tag
find_tag-upsert t name tag platform [] = refl
find_tag-upsert t name tag platform (r ∷ rs) = ground (
  arith,
  find_tag-upsert t name tag platform rs,
  eq_iff r.name t.name,
  eq_iff r.tag t.tag,
  eq_iff r.platform t.platform,
  eq_iff t.name name,
  eq_iff t.tag tag,
  eq_iff t.platform platform,
  eq_iff r.name name,
  eq_iff r.tag tag,
  eq_iff r.platform platform,
)

-- After a tag is set, looking an image up by that tag finds the image it was set to, for the platform
-- that it was set for; any other lookup finds what it found before.
pub get_image-set_image_tag :
    (name tag platform image identifier other : String) (serial : ℕ) (c : Catalog)
    → get_image image identifier other (set_image_tag name tag platform serial c) ≡ (
        if same_key (name, tag, platform) (image, identifier, other)
        then some serial
        else get_image image identifier other c)
unfolding get_image set_image_tag
get_image-set_image_tag name tag platform image identifier other serial c =
    let t : TagRow = record { name = name; tag = tag; platform = platform; image_id = serial } in
    ground (arith, find_tag-upsert t image identifier other c.tags)

pub get_image_tagged :
    (name tag platform : String) (serial : ℕ) (c : Catalog)
    → get_image name tag platform (set_image_tag name tag platform serial c) ≡ some serial
get_image_tagged name tag platform serial c =
    get_image-set_image_tag name tag platform name tag platform serial c
    ∙ rw (==_self name, ==_self tag, ==_self platform) refl

pub get_image_by_digest-set_image_tag :
    (name tag platform image digest : String) (serial : ℕ) (c : Catalog)
    → get_image_by_digest image digest (set_image_tag name tag platform serial c)
      ≡ get_image_by_digest image digest c
unfolding set_image_tag get_image_by_digest
get_image_by_digest-set_image_tag name tag platform image digest serial c = refl
