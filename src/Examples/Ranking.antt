-- ===== src/Examples/Ranking.antt =====
-- A trace of one image of two layers (proxy/database.go).
use starlight.Prelude.{ℕ, ◌≡◌, refl, true, [], ◌∷◌, map, nat_comparable, text_comparable, ok}
use starlight.Client.Tracer.{OptimizedTraceItem, OptimizedGroup}
use starlight.Proxy.Catalog.{Catalog}
use starlight.Proxy.Database.{Database, image_rows}
use starlight.Proxy.Ranking.{layers_image_map, source_fs, update_file_ranks}
use starlight.Proxy.Ranking.Recorded.{with_ranks, update_file_ranks-ranks_of}
use starlight.Examples.DeltaBundle.{app_entry}

abbrev catalog : Catalog
catalog = record {
  images = record { id = 7; image = "app"; hash = "sha256:app"; ready = true; nlayer = 2 } ∷ [];
  tags = [];
  next_id = 8;
}

abbrev tables : Database
tables = record {
  layers =
      record { size = 9; image = 7; stack_index = 1; layer = 2 }
      ∷ record { size = 5; image = 7; stack_index = 0; layer = 1 }
      ∷ [];
  filesystems =
      record { id = 1; digest = "sha256:1"; size = 5 }
      ∷ record { id = 2; digest = "sha256:2"; size = 9 }
      ∷ [];
  files =
      record { hash = "sha256:b"; fs = 2; file = "app"; order = 4 ∷ []; metadata = app_entry }
      ∷ record { hash = "sha256:b"; fs = 1; file = "app"; order = []; metadata = app_entry }
      ∷ [];
}

abbrev item : ℕ → ℕ → OptimizedTraceItem
item stack rank = record {
  file_name = "app";
  stack = stack;
  access = 3;
  wait = 1;
  rank = rank;
  source_image = 0;
}

abbrev group : OptimizedGroup
group = record { history = item 1 0 ∷ item 0 1 ∷ []; images = "sha256:app" ∷ [] }

update_file_ranks-ranks_of_example : update_file_ranks catalog (group ∷ []) tables ≡ (
  record tables { files = map (with_ranks ((1 ∷ 2 ∷ []) ∷ []) group.history) tables.files },
  ok (((1 ∷ 2 ∷ []) ∷ []) ∷ []),
)
unfolding layers_image_map source_fs image_rows
update_file_ranks-ranks_of_example =
    update_file_ranks-ranks_of catalog group ((1 ∷ 2 ∷ []) ∷ []) tables refl
      ((2, refl), ((1, refl), tt))
