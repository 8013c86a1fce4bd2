-- ===== src/Client/Snapshotter/Service.antt =====
-- The client as the snapshotter plugin calls it (the plugin interface of client/client.go).
use starlight.Prelude.{
  ap, ℕ, String, ◌≡◌, refl, some, [], ◌∷◌, nat_comparable, text_comparable, lookup, Outcome,
  message, ok, error, panic,
}
use starlight.Client.Setup.{join_path}
use starlight.Client.Mounting.{Client, System, ContentStore}
use starlight.Client.Mounting.Loading.{load_image}
use starlight.Client.Mounting.Filesystems.{mount}
use starlight.Client.Snapshotter.{PluginClient}

unfoldable pub get_mounting_point : String → String → String
get_mounting_point root ss_id = join_path root ("mnt" ∷ ss_id ∷ [])

without_manager : Client × Outcome ℕ → Client × Outcome (Unit {0})
without_manager (c, ok _) = (c, ok tt)
without_manager (c, error e) = (c, error (message "failed to load image"))
without_manager (c, panic) = (c, panic)

-- `connect` is what containerd answers for a namespace, its content store or an error.
unfoldable pub prepare_manager :
    System
    → (String → Outcome ContentStore)
    → String
    → String
    → String
    → Client
    → Client × Outcome (Unit {0})
unfolding without_manager
prepare_manager sys connect root namespace manifest c = elim (connect namespace) [
  | error _ ↦ (c, error (message "failed to connect to containerd"))
  | panic ↦ (c, panic)
  | ok store ↦ without_manager (load_image sys store root manifest c)
]

unfoldable pub service : System → (String → Outcome ContentStore) → String → PluginClient Client
unfolding prepare_manager get_mounting_point
service sys connect root = record {
  get_mounting_point = get_mounting_point root;
  prepare_manager = prepare_manager sys connect root;
  mount = mount sys root;
}

-- An image in memory is prepared at once.
pub prepare_manager_loaded :
    (sys : System) (connect : String → Outcome ContentStore) (root namespace manifest : String)
    (store : ContentStore) (m : ℕ) (c : Client)
    → connect namespace ≡ ok store
    → lookup manifest c.manager_map ≡ some m
    → prepare_manager sys connect root namespace manifest c ≡ (c, ok tt)
unfolding prepare_manager load_image without_manager
prepare_manager_loaded sys connect root namespace manifest store m c o l =
    rw (prepare_manager, o, load_image, l) refl

-- An image that is loaded.
pub prepare_manager_new :
    (sys : System) (connect : String → Outcome ContentStore) (root namespace manifest : String)
    (store : ContentStore) (m : ℕ) (c d : Client)
    → connect namespace ≡ ok store
    → load_image sys store root manifest c ≡ (d, ok m)
    → prepare_manager sys connect root namespace manifest c ≡ (d, ok tt)
unfolding prepare_manager without_manager
prepare_manager_new sys connect root namespace manifest store m c d o l =
    rw (prepare_manager, o) (ap without_manager l)
