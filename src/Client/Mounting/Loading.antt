-- ===== src/Client/Mounting/Loading.antt =====
-- Loading an image from the content store, and turning its tracer on (`LoadImage` of client/client.go,
-- `SetOptimizerOn` and `NewTracer` of client/manager.go and client/fs/tracer.go).
pub mod Laws
pub mod Owners
pub mod Linked
use starlight.Prelude.{
  ℕ, zero, suc, String, Bool, true, false, Option, none, some, List, [], ◌∷◌, ◌++◌, nat_comparable,
  text_comparable, if◌then◌else◌, length, modify, lookup, insert, error, ok, panic, Outcome, ◌>>=◌,
  ◌>>◌, message,
}
use starlight.Client.Setup.{Bundle, init}
use starlight.Client.Extract.{Manager}
use starlight.Client.Mounting.{LoadedManager, System, Client, ContentStore, link_layers}

pub set_tracer : Option String → LoadedManager → LoadedManager
set_tracer group m = record m { tracer = group }

pub has_tracer : List LoadedManager → ℕ → Bool
has_tracer [] i = false
has_tracer (m ∷ ms) zero = elim m.tracer [ none ↦ false | some _ ↦ true ]
has_tracer (m ∷ ms) (suc i) = has_tracer ms i

unfoldable pub set_optimizer_on : System → String → ℕ → Client → Client × Option String
unfolding set_tracer has_tracer
set_optimizer_on sys group m c =
    if has_tracer c.managers m then (c, none) else (elim (sys.new_tracer group) [
      | some err ↦ (c, some err)
      | none ↦ (record c { managers = modify c.managers m (set_tracer (some group)) }, none)
    ])

-- A new manager, under the digest of its manifest.
unfoldable pub add_manager : String → Manager → Client → Client
add_manager manifest image c = record c {
  manager_map = insert manifest (length c.managers) c.manager_map;
  managers =
      c.managers
      ++ record { manifest_digest = manifest; image = image; tracer = none; fs = [] } ∷ [];
}

-- What `LoadImage` reads: the header is named by a label of the manifest.
load_header : ContentStore → String → Outcome Bundle
load_header store manifest = do
  labels ← store.info manifest
  config ← store.manifest manifest
  bundle ←
      store.header
        (elim (lookup "containerd.io/gc.ref.content.starlight" labels) [ none ↦ "" | some d ↦ d ])
  store.config config
  ok bundle

-- `LoadImage` from the manager on, in the steps that follow.
optimized : System → ℕ → Bool → Client → Client × Option String
unfolding set_optimizer_on
optimized sys m true c = set_optimizer_on sys c.default_optimize_group m c
optimized sys m false c = (c, none)

after_optimizer : ℕ → List ℕ → Client × Option String → Client × Outcome ℕ
unfolding link_layers
after_optimizer m serials (c, some err) = (c, error (message err))
after_optimizer m serials (c, none) = elim (link_layers m 0 serials c) [
  | ok d ↦ (d, ok m)
  | error e ↦ (c, error e)
  | panic ↦ (c, panic)
]

load_new : System → String → Manager → Client → Client × Outcome ℕ
unfolding optimized after_optimizer add_manager
load_new sys manifest image c =
    after_optimizer (length c.managers) image.stack_serial_map
      (optimized sys (length c.managers) c.default_optimizer (add_manager manifest image c))

load_bundle : System → String → String → Outcome Bundle → Client → Client × Outcome ℕ
unfolding load_new
load_bundle sys root manifest (error e) c = (c, error e)
load_bundle sys root manifest panic c = (c, panic)
load_bundle sys root manifest (ok bundle) c = elim (init root true bundle) [
  | none ↦ (c, panic)
  | some (image, _) ↦ load_new sys manifest image c
]

unfoldable pub load_image : System → ContentStore → String → String → Client → Client × Outcome ℕ
unfolding load_header load_bundle
load_image sys store root manifest c = elim (lookup manifest c.manager_map) [
  | some m ↦ (c, ok m)
  | none ↦ load_bundle sys root manifest (load_header store manifest) c
]
