-- ===== src/Proxy/Catalog.antt =====
-- The images and tags that the proxy knows (proxy/database.go), on tables held as lists. A serial
-- number comes from the sequence of the table. A query that finds no row is an error where the code
-- scans one; the database itself does not fail.
pub mod Lifecycle
pub mod Tags
use starlight.Prelude.{
  ℕ, ◌+◌, String, Bool, true, false, ◌&&◌, ◌||◌, Option, none, some, List, [], ◌∷◌, ◌++◌, ◌==◌,
  nat_comparable, text_comparable, if◌then◌else◌,
}

-- `ready` is whether the column is not null.
pub record ImageRow : Type 0 where
  pub id : ℕ
  pub image : String
  pub hash : String
  pub ready : Bool
  pub nlayer : ℕ

pub record TagRow : Type 0 where
  pub name : String
  pub tag : String
  pub platform : String
  pub image_id : ℕ

pub record Catalog : Type 0 where
  pub images : List ImageRow
  pub tags : List TagRow
  pub next_id : ℕ

has_key : String → String → ImageRow → Bool
has_key image hash r = r.image == image && r.hash == hash

unfoldable pub find_image : String → String → List ImageRow → Option ImageRow
unfolding has_key
find_image image hash [] = none
find_image image hash (r ∷ rs) = if has_key image hash r then some r else find_image image hash rs

pub find_ready : String → String → List ImageRow → Option ℕ
unfolding has_key
find_ready image hash [] = none
find_ready image hash (r ∷ rs) =
    if r.ready && has_key image hash r then some r.id else find_ready image hash rs

mark_ready : Bool → ℕ → List ImageRow → List ImageRow
mark_ready b serial [] = []
mark_ready b serial (r ∷ rs) =
    let rest = mark_ready b serial rs in
    if r.id == serial then record r { ready = b } ∷ rest else r ∷ rest

has_id : ℕ → List ImageRow → Bool
has_id serial [] = false
has_id serial (r ∷ rs) = r.id == serial || has_id serial rs

pub set_image_ready : Bool → ℕ → Catalog → Option Catalog
unfolding mark_ready has_id
set_image_ready b serial c =
    if has_id serial c.images
    then some (record c { images = mark_ready b serial c.images })
    else none

abbrev pub new_row : ℕ → String → String → ℕ → ImageRow
new_row id image hash nlayer = record {
  id = id;
  image = image;
  hash = hash;
  ready = false;
  nlayer = nlayer;
}

-- The row of the image as the query finds it; the number 0 is taken for no row. The insertion of a
-- key that is there does nothing and returns no row, which is an error.
inserted : Option ImageRow → Catalog → String → String → ℕ → Option (Catalog × ℕ × Bool)
inserted none c image hash nlayer = some (
  record c {
    images = c.images ++ new_row c.next_id image hash nlayer ∷ [];
    next_id = c.next_id + 1;
  },
  c.next_id,
  false,
)
inserted (some r) c image hash nlayer =
    if r.id == 0 then none else (if r.ready then some (c, r.id, true) else none)

pub insert_image : String → String → ℕ → Catalog → Option (Catalog × ℕ × Bool)
unfolding find_image inserted
insert_image image hash nlayer c = inserted (find_image image hash c.images) c image hash nlayer

same_tag : String → String → String → TagRow → Bool
same_tag name tag platform r = r.name == name && (r.tag == tag && r.platform == platform)

upsert : TagRow → List TagRow → List TagRow
unfolding same_tag
upsert t [] = t ∷ []
upsert t (r ∷ rs) =
    let rest = upsert t rs in
    if same_tag t.name t.tag t.platform r then record r { image_id = t.image_id } ∷ rs else r ∷ rest

pub set_image_tag : String → String → String → ℕ → Catalog → Catalog
unfolding upsert
set_image_tag name tag platform serial c = record c {
  tags = upsert (record { name = name; tag = tag; platform = platform; image_id = serial }) c.tags;
}

find_tag : String → String → String → List TagRow → Option ℕ
unfolding same_tag
find_tag name tag platform [] = none
find_tag name tag platform (r ∷ rs) =
    if same_tag name tag platform r then some r.image_id else find_tag name tag platform rs

-- A tag if there is one, else the digest of an image that is ready.
pub get_image : String → String → String → Catalog → Option ℕ
unfolding find_tag find_ready
get_image image identifier platform c = elim (find_tag image identifier platform c.tags) [
  | some serial ↦ some serial
  | none ↦ find_ready image identifier c.images
]

pub get_image_by_digest : String → String → Catalog → Option ℕ
unfolding find_ready
get_image_by_digest image digest c = find_ready image digest c.images
