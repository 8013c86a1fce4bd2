-- ===== src/Common/Directory.antt =====
-- The children of a directory in the table of contents (util/common/toc.go). A child is a position
-- among the entries, and `kind` is the type of each entry. A nil map of children is the empty one: the
-- code treats both alike. The number of links is an int, kept as a natural number: it is lowered only
-- for a child that has been counted, which the theorems show.
pub mod Links
use starlight.Prelude.{
  ℕ, ◌+◌, ◌-◌, String, Bool, Option, none, some, [], ◌∷◌, ◌==◌, nat_comparable, text_comparable,
  if◌then◌else◌, Map, lookup, insert, remove,
}

pub record TocEntry : Type 0 where
  pub num_link : ℕ
  pub children : Map String ℕ

module _ (kind : ℕ → String) where
  unfoldable pub is_dir : ℕ → Bool
  is_dir child = kind child == "dir"

  pub add_child : String → ℕ → TocEntry → TocEntry
  unfolding is_dir
  add_child base child e = record {
    num_link = if is_dir child then e.num_link + 1 else e.num_link;
    children = insert base child e.children;
  }

  pub get_child : TocEntry → String → Option ℕ
  get_child e base = lookup base e.children

  pub remove_child : String → TocEntry → TocEntry
  unfolding is_dir
  remove_child base e = elim (lookup base e.children) [
    | none ↦ e
    | some item ↦ record {
      num_link = if is_dir item then e.num_link - 1 else e.num_link;
      children = remove base e.children;
    }
  ]

  -- The links that the loop over the children takes away.
  unlink : Map String ℕ → ℕ → ℕ
  unfolding is_dir
  unlink [] n = n
  unlink ((_, item) ∷ items) n = unlink items (if is_dir item then n - 1 else n)

  pub remove_all_children : TocEntry → TocEntry
  unfolding unlink
  remove_all_children e = record { num_link = unlink e.children e.num_link; children = [] }
