-- ===== src/Client/Snapshotter/Mounts/Managers.antt =====
-- Whether the loop around the mount of a layer ends (client/snapshotter/plugin.go).
use starlight.Prelude.{
  ℕ, zero, suc, String, ◌≡◌, refl, ap, ◌∙◌, ◌≢◌, Option, none, some, List, ◌∷◌, nat_comparable,
  text_comparable, lookup, Outcome, err_no_manager, message, ok, error, panic,
}
use starlight.Client.Mounting.Filesystems.{mount}
use starlight.Client.Mounting.Loading.{load_image}
use starlight.Client.Mounting.Loading.Linked.{load_image-Managed}
use starlight.Client.Mounting.{hash_at, Info, MountPoint, Client, System, ContentStore}
use starlight.Client.Mounting.Filesystems.Mounts.{mount_without_manager}
use starlight.Client.Snapshotter.{PluginClient}
use starlight.Client.Snapshotter.Service.{service, prepare_manager_loaded, prepare_manager_new}
use starlight.Client.Snapshotter.Mounts.{prepare_next, retry, answered, mount_layer}

module _ {S : Type 0} (client : PluginClient S) (namespace und ss_id : String) (inf : Info) where
  prepare_next_first :
      (md : String) (mds : List String) (s t : S)
      → client.prepare_manager namespace md s ≡ (t, ok tt)
      → prepare_next client namespace (md ∷ mds) s ≡ (t, ok (md ∷ mds))
  unfolding prepare_next
  prepare_next_first md mds s t p = rw (prepare_next, p) (ap (λ r. (r.0, ok (md ∷ mds))) p)

-- A directory that the loop answers is what a mount answered.
module _ {S : Type 0} (client : PluginClient S) (namespace und ss_id : String) (inf : Info) where
  abbrev pub Told : Option (S × Outcome (String × List String)) → Type 0
  Told none = Unit
  Told (some (t, ok (m, mds))) = (s : S) × (client.mount und ss_id inf s ≡ (t, ok m))
  Told (some (t, error e)) = Unit
  Told (some (t, panic)) = Unit

  module _ (again : List String → S → Option (S × Outcome (String × List String)))
      (rest : (mds : List String) (s : S) → Told (again mds s)) where
    Told-retry : (r : S × Outcome (List String)) → Told (retry client namespace again r)
    unfolding retry
    Told-retry (t, ok mds) = rest mds t
    Told-retry (t, error e) = tt
    Told-retry (t, panic) = tt

    Told-answered :
        (mds : List String) (s : S) (r : S × Outcome String)
        → client.mount und ss_id inf s ≡ r
        → Told (answered client namespace again mds r)
    unfolding answered
    Told-answered mds s (t, ok m) p = (s, p)
    Told-answered mds s (t, error err_no_manager) p =
        Told-retry (prepare_next client namespace mds t)
    Told-answered mds s (t, error (message e)) p = tt
    Told-answered mds s (t, panic) p = tt

  pub Told-mount_layer :
      (fuel : ℕ) (mds : List String) (s : S)
      → Told (mount_layer client namespace fuel und ss_id inf mds s)
  unfolding mount_layer
  Told-mount_layer zero mds s = tt
  Told-mount_layer (suc fuel) mds s =
      Told-answered (mount_layer client namespace fuel und ss_id inf) (Told-mount_layer fuel) mds s
        (client.mount und ss_id inf s) refl

-- What the loop answers when a mount has an answer.
abbrev pub finished :
    {S : Type 0} → List String → S × Outcome String → S × Outcome (String × List String)
finished mds (s, ok m) = (s, ok (m, mds))
finished mds (s, error e) = (s, error e)
finished mds (s, panic) = (s, panic)

answered-finished :
    {S : Type 0} (client : PluginClient S) (namespace : String)
    (again : List String → S → Option (S × Outcome (String × List String))) (mds : List String)
    (r : S × Outcome String)
    → r.1 ≢ error err_no_manager
    → answered client namespace again mds r ≡ some (finished mds r)
unfolding answered
answered-finished client namespace again mds (s, ok m) n = refl
answered-finished client namespace again mds (s, error err_no_manager) n = absurd (n refl)
answered-finished client namespace again mds (s, error (message e)) n = refl
answered-finished client namespace again mds (s, panic) n = refl

-- If the layer's entry has neither filesystem nor manager, containerd is connected, and the first
-- manifest of the list is that of an image which is not in memory, can be loaded, and has the layer at
-- some stack, then the loop ends with the second mount, made after the image was loaded, whatever that
-- mount answers: its directory, with the manifest still first in the list, its error or its panic.
pub mount_layer_loaded :
    (sys : System) (connect : String → Outcome ContentStore) (root namespace und ss_id md : String)
    (inf : Info) (mds : List String) (store : ContentStore) (mp : MountPoint) (m stack fuel : ℕ)
    (c d : Client)
    → connect namespace ≡ ok store
    → lookup und c.layer_map ≡ some mp
    → mp.fs ≡ none
    → mp.manager ≡ none
    → lookup md c.manager_map ≡ none
    → load_image sys store root md c ≡ (d, ok m)
    → hash_at d.managers m stack ≡ some und
    → mount_layer (service sys connect root) namespace (suc (suc fuel)) und ss_id inf (md ∷ mds) c
      ≡ some (finished (md ∷ mds) (mount sys root und ss_id inf d))
unfolding mount_layer service answered retry
mount_layer_loaded sys connect root namespace und ss_id md inf mds store mp m stack fuel c d o p f n
      absent loaded e =
    let plugin = service sys connect root in
    let again = mount_layer plugin namespace (suc fuel) und ss_id inf in
    let has = load_image-Managed sys store root md c d m stack und absent loaded e in
    ap (answered plugin namespace again (md ∷ mds))
      (mount_without_manager sys root und ss_id inf mp c p f n)
    ∙ ap (retry plugin namespace again) (
        prepare_next_first plugin namespace und ss_id inf md mds c d
          (prepare_manager_new sys connect root namespace md store m c d o loaded))
    ∙ answered-finished plugin namespace (mount_layer plugin namespace fuel und ss_id inf)
        (md ∷ mds) (mount sys root und ss_id inf d) (has.2 ss_id inf)

-- If containerd is connected, the layer's entry has neither filesystem nor manager, and the first
-- manifest of the list is one whose manager is in memory, then the loop never ends: however many rounds are given, none of them
-- comes to an answer. The manager is found again each time and the mount misses it again.
pub mount_layer_endless :
    (sys : System) (connect : String → Outcome ContentStore) (root namespace und ss_id md : String)
    (inf : Info) (mds : List String) (store : ContentStore) (mp : MountPoint) (m fuel : ℕ)
    (c : Client)
    → connect namespace ≡ ok store
    → lookup und c.layer_map ≡ some mp
    → mp.fs ≡ none
    → mp.manager ≡ none
    → lookup md c.manager_map ≡ some m
    → mount_layer (service sys connect root) namespace fuel und ss_id inf (md ∷ mds) c ≡ none
unfolding mount_layer service answered retry
mount_layer_endless sys connect root namespace und ss_id md inf mds store mp m zero c o p f n l =
    refl
mount_layer_endless sys connect root namespace und ss_id md inf mds store mp m (suc fuel) c o p f n
      l =
    let plugin = service sys connect root in
    let again = mount_layer plugin namespace fuel und ss_id inf in
    ap (answered plugin namespace again (md ∷ mds))
      (mount_without_manager sys root und ss_id inf mp c p f n)
    ∙ step
    ∙ mount_layer_endless sys connect root namespace und ss_id md inf mds store mp m fuel c o p f n
        l
  where
    step :
        answered
          (service sys connect root)
          namespace
          (mount_layer (service sys connect root) namespace fuel und ss_id inf)
          (md ∷ mds)
          (c, error err_no_manager)
        ≡ mount_layer (service sys connect root) namespace fuel und ss_id inf (md ∷ mds) c
    step =
        ap
          (retry (service sys connect root) namespace
            (mount_layer (service sys connect root) namespace fuel und ss_id inf))
          (prepare_next_first (service sys connect root) namespace und ss_id inf md mds c c
            (prepare_manager_loaded sys connect root namespace md store m c o l))
