-- ===== src/Examples/Snapshots.antt =====
-- A store of two snapshots, the upper of which has the lower for its parent
-- (client/snapshotter/plugin.go).
use starlight.Prelude.{
  ℕ, ◌+◌, String, ◌≡◌, refl, Bool, true, false, none, some, [], ◌∷◌, ◌==◌, nat_comparable,
  text_comparable, if◌then◌else◌, lookup, err_no_manager, message, ok, error,
}
use starlight.Client.Mounting.{Info}
use starlight.Client.Snapshotter.{PluginClient}
use starlight.Client.Snapshotter.Mounts.{mounts}
use starlight.Client.Snapshotter.Transactions.{
  MetaStore, Files, Store, new_snapshot, commit, remove_snapshot,
}
use starlight.Client.Snapshotter.Transactions.Closing.{
  Answers, commit-remove_snapshot, new_snapshot_stuck,
}
use starlight.Client.Snapshotter.Transactions.Refusing.{
  remove_snapshot_refused, Discards, directory, discarded,
}

abbrev lower : Info
lower = record { name = "lower"; parent = ""; is_active = false; labels = [] }

-- A layer of starlight that no manager is found for.
abbrev layer : Info
layer = record {
  name = "layer";
  parent = "";
  is_active = true;
  labels = ("containerd.io/snapshot/starlight.ref.uncompressed", "sha256:2") ∷ [];
}

-- The store as the number of its changes; the snapshot "lower" has a child.
abbrev counting : MetaStore ℕ
counting = record {
  get_info = λ _ name. if name == "lower" then ok ("1", lower) else ok ("2", layer);
  create_snapshot = λ _ _ _ n. ok (n + 1, "2");
  commit_active = λ _ _ n. ok (n + 1);
  remove = λ name n. if name == "lower" then error (message "has children") else ok (n + 1);
  commit = λ _. none;
}

abbrev calm_files : Files ℕ
calm_files = record {
  apply_options = λ inf. ok inf;
  mkdir_all = λ _. none;
  disk_usage = λ _. none;
  remove_all = λ _. none;
  unmount = λ _ _ s. (s, none);
}

abbrev no_image : PluginClient ℕ
no_image = record {
  get_mounting_point = λ ss_id. ss_id;
  prepare_manager = λ _ _ s. (s, error (message "failed to load image"));
  mount = λ _ _ _ s. (s, error err_no_manager);
}

abbrev idle : Store ℕ ℕ
idle = record { db = 0; writing = false; client = 0; removed = [] }

commit-remove_snapshot_example :
    Answers (commit counting calm_files no_image (λ d. d) "k8s.io" "done" "lower" idle)
    × Answers (remove_snapshot counting calm_files no_image "lower" idle)
commit-remove_snapshot_example =
    commit-remove_snapshot counting calm_files no_image (λ d. d) "k8s.io" "done" "lower" idle refl

new_snapshot_stuck_example :
    (v : Store ℕ ℕ) × (new_snapshot counting calm_files no_image 9 "k8s.io" "layer" "" false idle
      ≡ some (v, error (message "failed to load image")))
    × ((next above : String) (ro : Bool)
        → new_snapshot counting calm_files no_image 9 "k8s.io" next above ro v ≡ none)
    × ((layer_path : String → String) (name next : String)
        → commit counting calm_files no_image layer_path "k8s.io" name next v ≡ none)
    × ((next : String) → remove_snapshot counting calm_files no_image next v ≡ none)
unfolding mounts lookup
new_snapshot_stuck_example =
    new_snapshot_stuck counting calm_files no_image 9 "k8s.io" "layer" "" "2" "2" false 1
      (record { name = ""; parent = ""; is_active = false; labels = [] }) layer 0
      (message "failed to load image") idle refl refl refl (λ _. refl) refl refl

abbrev its_directory : Discards calm_files no_image "lower" "1" lower 0
unfolding lookup
its_directory = directory refl refl

remove_snapshot_refused_example :
    (remove_snapshot counting calm_files no_image "lower" idle
      ≡ some (discarded its_directory idle, ok tt))
    × ((discarded its_directory idle).db ≡ 0)
    × (counting.get_info (discarded its_directory idle).db "lower" ≡ ok ("1", lower))
remove_snapshot_refused_example =
    remove_snapshot_refused counting calm_files no_image "lower" "1" lower (message "has children")
      idle its_directory refl refl refl refl
