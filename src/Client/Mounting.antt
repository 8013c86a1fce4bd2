-- ===== src/Client/Mounting.antt =====
-- The layer map and the managers of the client, and the filesystems that are mounted for layers
-- (client/client.go, client/manager.go, client/fs/instance.go): their state, and the layer map. A
-- *Manager and an *Instance are their positions among all that were made. Each operation runs under
-- the lock of the map it writes, so that one call is one atomic step; an int64 is its bit pattern.
pub mod Serving
pub mod Loading
pub mod Filesystems
pub mod Pulling
pub mod Steps
use starlight.Prelude.{
  ℕ, zero, suc, ◌+◌, ◌-◌, ◌^◌, String, Bool, false, Option, none, some, List, [], ◌∷◌, map,
  nat_comparable, text_comparable, if◌then◌else◌, get_elem?, Map, lookup, insert, ok, panic,
  Outcome,
}
use Prim.Native.Nat.{◌-◌}
use starlight.Client.Setup.{Bundle}
use starlight.Client.Extract.{Manager}
use starlight.Client.Receive.{ImageLayer}
use mathlib.Core.Option

-- snapshots.Info, as far as it is read.
pub record Info : Type 0 where
  pub name : String
  pub parent : String
  pub is_active : Bool
  pub labels : Map String String

pub record Instance : Type 0 where
  pub mount_point : String
  pub manager : ℕ
  pub stack : ℕ
  pub torn_down : Bool

-- The manager of an image: `image` is what `Init` makes, `tracer` the group of the tracer if it is on.
pub record LoadedManager : Type 0 where
  pub manifest_digest : String
  pub image : Manager
  pub tracer : Option String
  pub fs : Map ℕ ℕ

pub record MountPoint : Type 0 where
  pub fs : Option ℕ
  pub manager : Option ℕ
  pub stack : ℕ
  pub snapshots : Map String Info

pub record Client : Type 0 where
  pub layer_map : Map String MountPoint
  pub manager_map : Map String ℕ
  pub managers : List LoadedManager
  pub instances : List Instance
  pub default_optimizer : Bool
  pub default_optimize_group : String

-- What the system answers: an error of fuse.NewServer at a directory, one of the server's Unmount,
-- and one of NewTracer.
pub record System : Type 0 where
  pub new_server : String → Option String
  pub unmount_server : String → Option String
  pub new_tracer : String → Option String

-- containerd's content store: the labels of a blob, and the blobs that are parsed. A manifest is the
-- digest of its configuration.
pub record ContentStore : Type 0 where
  pub info : String → Outcome (Map String String)
  pub manifest : String → Outcome String
  pub header : String → Outcome Bundle
  pub config : String → Outcome (Unit {0})

abbrev pub new_client : Client
new_client = record {
  layer_map = [];
  manager_map = [];
  managers = [];
  instances = [];
  default_optimizer = false;
  default_optimize_group = "";
}

-- make(map[string]*snapshots.Info), and a mount point without filesystem
fresh : Option ℕ → ℕ → MountPoint
fresh manager stack = record { fs = none; manager = manager; stack = stack; snapshots = [] }

-- The stack of a layer that has no manager is -1.
pub add_completed_layers : String → Client → Client
unfolding fresh
add_completed_layers digest c = elim (lookup digest c.layer_map) [
  | some _ ↦ c
  | none ↦ record c { layer_map = insert digest (fresh none (2 ^ 64 - 1)) c.layer_map }
]

-- m.layers[m.stackSerialMap[stack]].Hash: an index out of range and a nil layer are panics.
hash_of : Manager → ℕ → Option String
hash_of m stack = elim (get_elem? m.stack_serial_map stack) [
  | none ↦ none
  | some serial ↦ Option.map (λ (l : ImageLayer). l.hash) (lookup serial m.layers)
]

unfoldable pub hash_at : List LoadedManager → ℕ → ℕ → Option String
unfolding hash_of
hash_at [] i stack = none
hash_at (m ∷ ms) zero stack = hash_of m.image stack
hash_at (m ∷ ms) (suc i) stack = hash_at ms i stack

-- The entry of the layer map after the image's layer at `stack` is found to be `digest`.
link : ℕ → ℕ → Option MountPoint → MountPoint
unfolding fresh
link m stack none = fresh (some m) stack
link m stack (some mp) = elim mp.manager [
  | none ↦ record mp { manager = some m; stack = stack }
  | some _ ↦ mp
]

pub link_layer : ℕ → ℕ → String → Client → Client
unfolding link
link_layer m stack digest c = record c {
  layer_map = insert digest (link m stack (lookup digest c.layer_map)) c.layer_map;
}

-- The loop of `LoadImage` over the layers of the manager, from `stack` on.
pub link_layers : ℕ → ℕ → List ℕ → Client → Outcome Client
unfolding link_layer hash_at
link_layers m stack [] c = ok c
link_layers m stack (_ ∷ serials) c = elim (hash_at c.managers m stack) [
  | none ↦ panic
  | some digest ↦ link_layers m (stack + 1) serials (link_layer m stack digest c)
]
