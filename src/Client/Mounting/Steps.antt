-- ===== src/Client/Mounting/Steps.antt =====
-- The calls that change the layer map and the managers, in any order, as they interleave: the containerd
-- plugin mounts and unmounts while images are pulled and loaded (client/client.go, client/grpc.go).
use starlight.Prelude.{
  ℕ, String, ◌≡◌, sym, subst, Bool, some, nat_comparable, text_comparable, remove,
}
use starlight.Client.Mounting.{
  Info, Client, System, ContentStore, hash_at, link_layer, add_completed_layers, new_client,
}
use starlight.Client.Mounting.Loading.{set_optimizer_on, load_image}
use starlight.Client.Mounting.Loading.Laws.{
  Sound-set_optimizer_on, Sound-load_image, Sound-add_manager,
}
use starlight.Client.Mounting.Pulling.{register}
use starlight.Client.Mounting.Filesystems.{mount, unmount}
use starlight.Client.Mounting.Filesystems.Mounts.{Mounted, Good-mount}
use starlight.Client.Mounting.Filesystems.Unmounts.{Sound-unmount}
use starlight.Client.Mounting.Serving.{Sound, Sound-add_completed_layers, Sound-link_layer}
use starlight.Client.Extract.{Manager}

-- One call, or for `PullImage` and `CreateSnapshots` one stretch under a lock.
pub data Call (sys : System) (store : ContentStore) (root : String) (c d : Client) : Type 0 where
  scanned : (digest : String) → d ≡ add_completed_layers digest c → Call sys store root c d
  loaded :
      (manifest : String) → d ≡ (load_image sys store root manifest c).0 → Call sys store root c d
  registered :
      (manifest : String) (image : Manager)
      → d ≡ register manifest image c
      → Call sys store root c d
  linked :
      (m stack : ℕ) (digest : String)
      → hash_at c.managers m stack ≡ some digest
      → d ≡ link_layer m stack digest c
      → Call sys store root c d
  traced :
      (group : String) (m : ℕ) → d ≡ (set_optimizer_on sys group m c).0 → Call sys store root c d
  configured :
      (on : Bool) (group : String)
      → d ≡ record c { default_optimizer = on; default_optimize_group = group }
      → Call sys store root c d
  mounted :
      (digest ss_id : String) (sn : Info)
      → d ≡ (mount sys root digest ss_id sn c).0
      → Call sys store root c d
  unmounted : (digest sn : String) → d ≡ (unmount sys digest sn c).0 → Call sys store root c d

pub data Reach (sys : System) (store : ContentStore) (root : String) : Client → Type 0 where
  start : Reach sys store root new_client
  next : {c d : Client} → Reach sys store root c → Call sys store root c d → Reach sys store root d

module _ (sys : System) (store : ContentStore) (root : String) where
  Sound-Call : (c d : Client) → Call sys store root c d → Sound c → Sound d
  unfolding register
  Sound-Call c d (scanned digest e) h = subst Sound (sym e) (Sound-add_completed_layers digest c h)
  Sound-Call c d (loaded manifest e) h =
      subst Sound (sym e) (Sound-load_image sys store root manifest c h)
  Sound-Call c d (registered manifest image e) h = subst Sound (sym e) (
      Sound-add_manager manifest image (record c { manager_map = remove manifest c.manager_map }) h)
  Sound-Call c d (linked m stack digest p e) h =
      subst Sound (sym e) (Sound-link_layer m stack digest c p h)
  Sound-Call c d (traced group m e) h = subst Sound (sym e) (Sound-set_optimizer_on sys group m c h)
  Sound-Call c d (configured on group e) h = subst Sound (sym e) h
  Sound-Call c d (mounted digest ss_id sn e) h =
      subst Sound (sym e) (Good-mount sys root digest ss_id sn c h).0
  Sound-Call c d (unmounted digest sn e) h = subst Sound (sym e) (Sound-unmount sys digest sn c h)

  pub Sound-Reach : {c : Client} → Reach sys store root c → Sound c
  Sound-Reach start = tt
  Sound-Reach (next {c = c} {d = d} r s) = Sound-Call c d s (Sound-Reach r)

-- In every state that the calls of a client can reach, in whatever order they come, a mount of a layer
-- either answers an error or answers the directory of a filesystem which was made by a manager from
-- the layer that its image has at the filesystem's stack, and that layer is the one asked for; the
-- layer's entry then has this filesystem and counts the snapshot among its users. It never panics.
pub mount-Reach :
    (sys : System) (store : ContentStore) (root digest ss_id : String) (sn : Info) {c : Client}
    → Reach sys store root c
    → Mounted digest sn (mount sys root digest ss_id sn c).0 (mount sys root digest ss_id sn c).1
mount-Reach sys store root digest ss_id sn {c = c} r =
    (Good-mount sys root digest ss_id sn c (Sound-Reach sys store root r)).1
