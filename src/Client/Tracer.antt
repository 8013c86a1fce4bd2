-- ===== src/Client/Tracer.antt =====
-- The traces of file accesses, from which the proxy learns the order that files are needed in
-- (client/fs/tracer.go). Times are natural numbers, on one clock, and no access lies before the start
-- of its trace. The files of the directory are the traces that could be read and parsed.
pub mod Items
pub mod Ranks
pub mod Groups
use starlight.Prelude.{
  ℕ, ◌+◌, ◌-◌, String, Bool, true, false, Option, none, some, List, [], ◌∷◌, ◌++◌, map, ltb, ◌==◌,
  nat_comparable, text_comparable, if◌then◌else◌, Map, lookup, insert, MapOrder, Sorter,
}
use starlight.Client.Extract.Unpack.{or_false}

pub record TraceItem : Type 0 where
  pub file_name : String
  pub stack : ℕ
  pub access : ℕ
  pub wait : ℕ

pub record Tracer : Type 0 where
  pub optimize_group : String
  pub image : String
  pub start_time : ℕ
  pub end_time : ℕ
  pub seq : List TraceItem

pub record OptimizedTraceItem : Type 0 where
  pub file_name : String
  pub stack : ℕ
  pub access : ℕ
  pub wait : ℕ
  pub rank : ℕ
  pub source_image : ℕ

pub record OptimizedGroup : Type 0 where
  pub history : List OptimizedTraceItem
  pub images : List String

pub log : String → ℕ → ℕ → ℕ → Tracer → Tracer
log file_name stack access_time complete_time t = record t {
  seq =
      t.seq
      ++ record {
        file_name = file_name;
        stack = stack;
        access = access_time - t.start_time;
        wait = complete_time - access_time;
      }
        ∷ [];
}

-- The items whose file was not visited before, in order.
pub fresh_items :
    (TraceItem → OptimizedTraceItem) → Map String Bool → List TraceItem → List OptimizedTraceItem
fresh_items make visited [] = []
fresh_items make visited (t ∷ ts) = elim (or_false (lookup t.file_name visited)) [
  | true ↦ fresh_items make visited ts
  | false ↦ make t ∷ fresh_items make (insert t.file_name true visited) ts
]

pub set_ranks : ℕ → List OptimizedTraceItem → List OptimizedTraceItem
set_ranks i [] = []
set_ranks i (h ∷ hs) = record h { rank = i } ∷ set_ranks (i + 1) hs

-- An item of the group "default"; the composite literal has no stack.
default_item : TraceItem → OptimizedTraceItem
default_item t = record {
  file_name = t.file_name;
  stack = 0;
  access = t.access;
  wait = t.wait;
  rank = 0;
  source_image = 0;
}

pub default_group : Tracer → OptimizedGroup
unfolding fresh_items set_ranks default_item
default_group trace = record {
  history = set_ranks 0 (fresh_items default_item [] trace.seq);
  images = trace.image ∷ [];
}

earliest_from : ℕ → List Tracer → ℕ
earliest_from start [] = start
earliest_from start (t ∷ ts) =
    earliest_from (if ltb t.start_time start then t.start_time else start) ts

earliest : List Tracer → ℕ
unfolding earliest_from
earliest [] = 0
earliest (t ∷ ts) = earliest_from t.start_time ts

index_images : ℕ → List String → Map String ℕ → Map String ℕ
index_images i [] m = m
index_images i (img ∷ imgs) m = index_images (i + 1) imgs (insert img i m)

or_zero : Option ℕ → ℕ
or_zero none = 0
or_zero (some n) = n

group_item : ℕ → ℕ → TraceItem → OptimizedTraceItem
group_item offset source t = record {
  file_name = t.file_name;
  stack = t.stack;
  access = t.access + offset;
  wait = t.wait;
  rank = 0;
  source_image = source;
}

collect_history : ℕ → Map String ℕ → List Tracer → List OptimizedTraceItem
unfolding fresh_items group_item or_zero
collect_history start images [] = []
collect_history start images (t ∷ ts) =
    fresh_items (group_item (t.start_time - start) (or_zero (lookup t.image images))) [] t.seq
    ++ collect_history start images ts

-- `tc.tracerMap[group] = append(tc.tracerMap[group], t)`
add_tracer : Option (List Tracer) → Tracer → List Tracer
add_tracer none t = t ∷ []
add_tracer (some ts) t = ts ++ t ∷ []

tracer_map : List Tracer → Map String (List Tracer) → Map String (List Tracer)
unfolding add_tracer
tracer_map [] m = m
tracer_map (t ∷ ts) m =
    tracer_map ts (insert t.optimize_group (add_tracer (lookup t.optimize_group m) t) m)

module _ (by_text : List String → List String)
    (by_access : Sorter OptimizedTraceItem (λ h. h.access)) where
  pub named_group : List Tracer → OptimizedGroup
  unfolding collect_history earliest index_images set_ranks
  named_group arr =
      let images = by_text (map (λ (t : Tracer). t.image) arr) in
      record {
        history =
            set_ranks 0
              (by_access.sort (collect_history (earliest arr) (index_images 0 images []) arr));
        images = images;
      }

  groups_of : List (String × List Tracer) → List OptimizedGroup
  unfolding default_group named_group
  groups_of [] = []
  groups_of ((key, arr) ∷ rest) =
      (if key == "default" then map default_group arr else named_group arr ∷ []) ++ groups_of rest

  pub new_trace_collection : MapOrder (String × List Tracer) → List Tracer → List OptimizedGroup
  unfolding groups_of tracer_map
  new_trace_collection order files = groups_of (order.visit (tracer_map files []))
