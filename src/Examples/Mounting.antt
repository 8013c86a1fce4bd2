-- ===== src/Examples/Mounting.antt =====
-- A client that loads an image of one layer, mounts it and unmounts it (client/client.go,
-- client/snapshotter/plugin.go).
use starlight.Prelude.{
  ℕ, suc, ◌+◌, ◌<◌, String, ◌≡◌, refl, ap, ◌≢◌, inl, inr, Bool, true, false, none, some, [], ◌∷◌,
  arith, ◌==◌, nat_comparable, text_comparable, if◌then◌else◌, Bool-cases, lookup, err_no_manager,
  message, ok, error, insert, length, Outcome, ◌⊎◌, sym, panic, ◌∙◌, subst,
}
use starlight.Client.Setup.{Bundle, init}
use starlight.Client.Mounting.{Info, MountPoint, Client, System, ContentStore, new_client, hash_at}
use starlight.Client.Mounting.Loading.{load_image}
use starlight.Client.Mounting.Loading.Linked.{load_image-Managed}
use starlight.Client.Mounting.Loading.Owners.{Managed, owner}
use starlight.Client.Mounting.Filesystems.{mount, unmount, mount_point_at}
use starlight.Client.Mounting.Filesystems.Mounts.{Mounted}
use starlight.Client.Mounting.Filesystems.Unmounts.{is_torn_down, mount-unmount}
use starlight.Client.Mounting.Steps.{start, next, loaded, mount-Reach}
use starlight.Client.Snapshotter.{PluginClient, GetInfo, SnapshotItem, get_fs_stack}
use starlight.Client.Snapshotter.Chain.{Walked, get_fs_stack-Walked}
use starlight.Client.Snapshotter.Service.{service}
use starlight.Client.Snapshotter.Mounts.{mount_layer, mounts}
use starlight.Client.Snapshotter.Mounts.Managers.{finished, mount_layer_loaded, mount_layer_endless}
use starlight.Client.Snapshotter.Mounts.Overlay.{Overlaid, mounts-Overlaid}

abbrev pub willing : System
willing = record { new_server = λ _. none; unmount_server = λ _. none; new_tracer = λ _. none }

abbrev base_layer : String
base_layer = "sha256:0123456789ab"

abbrev pub one_layer : Bundle
one_layer = record {
  source = none;
  destination = record { size = 6; serial = 4; hash = base_layer; local = "" } ∷ [];
  contents = [];
  requested_files = [];
}

abbrev pub one_image : ContentStore
one_image = record {
  info = λ _. ok [];
  manifest = λ _. ok "config";
  header = λ _. ok one_layer;
  config = λ _. ok tt;
}

abbrev top : Info
top = record { name = "top"; parent = "base"; is_active = true; labels = [] }

abbrev loaded_client : Client
loaded_client = (load_image willing one_image "/var" "image" new_client).0

mount-Reach_example :
    Mounted base_layer top
      (mount willing "/var" base_layer "7" top loaded_client).0
      (mount willing "/var" base_layer "7" top loaded_client).1
mount-Reach_example =
    mount-Reach willing one_image "/var" base_layer "7" top (next start (loaded "image" refl))

load_image-Managed_example :
    (0 ≡ length new_client.managers)
    × Managed (owner 0 (lookup base_layer new_client.layer_map)) base_layer loaded_client
    × ((ss_id : String) (sn : Info)
        → (mount willing "/var" base_layer ss_id sn loaded_client).1 ≢ error err_no_manager)
unfolding load_image init lookup hash_at insert
load_image-Managed_example =
    load_image-Managed willing one_image "/var" "image" new_client loaded_client 0 0 base_layer refl
      refl refl

abbrev mounted_at : MountPoint
mounted_at = record { fs = some 0; manager = some 0; stack = 0; snapshots = ("top", top) ∷ [] }

abbrev mounted_client : Client
mounted_client = record {
  layer_map = (base_layer, mounted_at) ∷ [];
  manager_map = ("image", 0) ∷ [];
  managers = [];
  instances =
      record { mount_point = "/var/mnt/7/slfs"; manager = 0; stack = 0; torn_down = false } ∷ [];
  default_optimizer = false;
  default_optimize_group = "";
}

mount-unmount_example :
    ((mount willing "/var" base_layer "8" top (unmount willing base_layer "top" mounted_client).0).1
      ≡ ok "/var/mnt/7/slfs")
    × (is_torn_down (unmount willing base_layer "top" mounted_client).0.instances 0 ≡ true)
unfolding lookup mount_point_at
mount-unmount_example =
    mount-unmount willing "/var" base_layer "/var/mnt/7/slfs" "8" top top 0 0 mounted_at
      mounted_client refl refl refl refl refl refl

-- A store of two snapshots, and one that stands on both.
abbrev two_snapshots : GetInfo
two_snapshots name =
    if name == "base"
    then ok ("2", record { name = "base"; parent = "root"; is_active = false; labels = [] })
    else (if name == "root"
        then ok ("1", record { name = "root"; parent = ""; is_active = false; labels = [] })
        else error (message "not found"))

abbrev created : String → ℕ
created name = if name == "base" then 1 else 0

abbrev parent_of : Outcome (String × Info) → String
parent_of (ok (_, inf)) = inf.parent
parent_of (error _) = ""
parent_of panic = ""

parents :
    (name : String)
    → (parent_of (two_snapshots name) ≡ "")
      ⊎ (created (parent_of (two_snapshots name)) < created name)
parents name = elim (Bool-cases (name == "base")) [
  | inl p ↦ inr (rw p (omega arith))
  | inr p ↦ elim (Bool-cases (name == "root")) [
    | inl q ↦ inl (rw (p, q) refl)
    | inr q ↦ inl (rw (p, q) refl)
  ]
]

older :
    (name id : String) (inf : Info)
    → two_snapshots name ≡ ok (id, inf)
    → inf.parent ≢ ""
    → created inf.parent < created name
older name id inf h n =
    let q : parent_of (two_snapshots name) ≡ inf.parent = ap parent_of h in
    elim (parents name) [
      | inl p ↦ absurd (n (sym q ∙ p))
      | inr p ↦ subst (λ x. created x < created name) q p
    ]

get_fs_stack-Walked_example :
    Walked two_snapshots top (get_fs_stack (created "base" + 2) two_snapshots top)
get_fs_stack-Walked_example = get_fs_stack-Walked two_snapshots created top older

-- A plugin client that has a manager once one was prepared.
abbrev prompt : PluginClient Bool
prompt = record {
  get_mounting_point = λ ss_id. ss_id;
  prepare_manager = λ _ _ _. (true, ok tt);
  mount = λ _ _ _ s. (s, if s then ok "/var/mnt/7/slfs" else error err_no_manager);
}

-- The layer was found on the disk, and its image is not in memory.
abbrev found_on_disk : MountPoint
found_on_disk = record { fs = none; manager = none; stack = 0; snapshots = [] }

abbrev restarted : Client
restarted = record new_client { layer_map = (base_layer, found_on_disk) ∷ [] }

abbrev reloaded : Client
reloaded = (load_image willing one_image "/var" "image" restarted).0

mount_layer_loaded_example :
    mount_layer
      (service willing (λ _. ok one_image) "/var")
      "default"
      (suc (suc 0))
      base_layer
      "7"
      top
      ("image" ∷ [])
      restarted
    ≡ some (finished ("image" ∷ []) (mount willing "/var" base_layer "7" top reloaded))
unfolding load_image init lookup hash_at insert
mount_layer_loaded_example =
    mount_layer_loaded willing (λ _. ok one_image) "/var" "default" base_layer "7" "image" top []
      one_image found_on_disk 0 0 0 restarted reloaded refl refl refl refl refl refl refl

-- The layer was found on the disk, and another image is in memory.
abbrev stranded : Client
stranded = record mounted_client {
  layer_map = (base_layer, record { fs = none; manager = none; stack = 0; snapshots = [] }) ∷ [];
}

mount_layer_endless_example :
    mount_layer
      (service willing (λ _. ok one_image) "/var")
      "default"
      1000
      base_layer
      "7"
      top
      ("image" ∷ [])
      stranded
    ≡ none
unfolding lookup
mount_layer_endless_example =
    mount_layer_endless willing (λ _. ok one_image) "/var" "default" base_layer "7" "image" top []
      one_image (record { fs = none; manager = none; stack = 0; snapshots = [] }) 0 1000 stranded
      refl refl refl refl refl

abbrev base_item : SnapshotItem
base_item = record {
  ss_id = "2";
  inf = record { name = "base"; parent = "root"; is_active = false; labels = [] };
}

abbrev root_item : SnapshotItem
root_item = record {
  ss_id = "1";
  inf = record { name = "root"; parent = ""; is_active = false; labels = [] };
}

mounts-Overlaid_example :
    Overlaid prompt "default" "3" top
      (base_item ∷ root_item ∷ [])
      (mounts prompt "default" 4 two_snapshots "3" top false)
unfolding get_fs_stack
mounts-Overlaid_example =
    mounts-Overlaid prompt "default" "3" 4 two_snapshots top base_item (root_item ∷ []) false refl
