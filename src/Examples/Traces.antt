-- ===== src/Examples/Traces.antt =====
-- Two traces of one group, and one of the group "default" (client/fs/tracer.go).
use starlight.Prelude.{
  ℕ, String, ◌≡◌, List, [], ◌∷◌, nat_comparable, text_comparable, All, contains, Sorter,
}
use starlight.Examples.Orders.{by_insertion}
use starlight.Client.Tracer.{TraceItem, Tracer, OptimizedTraceItem, default_group, named_group}
use starlight.Client.Tracer.Items.{Distinct, Ascends, names, RankedFrom, accessed}
use starlight.Client.Tracer.Ranks.{default_group_once, first_names}
use starlight.Client.Tracer.Groups.{accessed_in, named_group-Ascends}

abbrev read_at : ℕ → String → ℕ → TraceItem
read_at time name stack = record { file_name = name; stack = stack; access = time; wait = 1 }

abbrev first_run : Tracer
first_run = record {
  optimize_group = "default";
  image = "sha256:app";
  start_time = 100;
  end_time = 110;
  seq = read_at 1 "bin/sh" 2 ∷ read_at 3 "etc/hosts" 1 ∷ read_at 4 "bin/sh" 2 ∷ [];
}

abbrev second_run : Tracer
second_run = record {
  optimize_group = "web";
  image = "sha256:db";
  start_time = 102;
  end_time = 110;
  seq = read_at 0 "bin/db" 0 ∷ [];
}

default_group_once_example :
    Distinct (default_group first_run).history
    × (names (default_group first_run).history ≡ first_names (accessed first_run.seq))
    × ((k : String)
        → contains (names (default_group first_run).history) k
          ≡ contains (accessed first_run.seq) k)
    × RankedFrom 0 (default_group first_run).history
    × All (λ (h : OptimizedTraceItem). h.stack ≡ 0) (default_group first_run).history
default_group_once_example = default_group_once first_run

abbrev by_access : Sorter OptimizedTraceItem (λ h. h.access)
by_access = by_insertion (λ (h : OptimizedTraceItem). h.access)

abbrev both_runs : List Tracer
both_runs = first_run ∷ second_run ∷ []

named_group-Ascends_example :
    Ascends (named_group (λ l. l) by_access both_runs).history
    × RankedFrom 0 (named_group (λ l. l) by_access both_runs).history
    × ((k : String)
        → contains (names (named_group (λ l. l) by_access both_runs).history) k
          ≡ contains (accessed_in both_runs) k)
named_group-Ascends_example = named_group-Ascends (λ l. l) by_access both_runs
