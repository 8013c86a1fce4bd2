-- ===== src/Client/Mounting/Filesystems/Unmounts.antt =====
-- What unmounting leaves (`Unmount` of client/client.go).
-- Unmounting takes a snapshot away and tears the filesystem down.
use starlight.Prelude.{
  ℕ, String, refl, inl, inr, Option, none, some, [], ◌∷◌, nat_comparable, text_comparable,
  Option-cases, Map, lookup, remove, Outcome, ok, error, panic, List, ◌≡◌, modify, ==_self, Bool,
  true, false, suc, ap, zero, ◌∙◌, lookup-insert_self,
}
use starlight.Client.Mounting.Filesystems.{
  unmount, unmount_last, unmount_rest, unmount_from, tear_down, put, mount_point_at, mount,
  mount_at, mount_by, mount_old, log_manager,
}
use starlight.Client.Mounting.{System, Info, Client, MountPoint, Instance}
use starlight.Client.Mounting.Serving.{Sound, Serves-write, Serves, All-lookup, All-insert}

Sound-unmount_last :
    (sys : System) (f : ℕ) (r : Outcome String) (c : Client)
    → Sound c
    → Sound (unmount_last sys f r c).0
unfolding unmount_last tear_down
Sound-unmount_last sys f (ok mnt) c h = elim (Option-cases (sys.unmount_server mnt)) [
  | inl p ↦
      rw (unmount_last, p)
        (Serves-write c.layer_map c.managers c.instances tear_down (λ x. refl) (λ x. refl) f h)
  | inr (e, p) ↦ rw (unmount_last, p) h
]
Sound-unmount_last sys f (error _) c h = h
Sound-unmount_last sys f panic c h = h

Sound-unmount_rest :
    (sys : System) (left : Map String Info) (f : Option ℕ) (c : Client)
    → Sound c
    → Sound (unmount_rest sys left f c).0
unfolding unmount_rest
Sound-unmount_rest sys (_ ∷ _) f c h = h
Sound-unmount_rest sys [] none c h = h
Sound-unmount_rest sys [] (some f) c h = Sound-unmount_last sys f (mount_point_at c.instances f) c h

Sound-unmount_from :
    (sys : System) (digest sn : String) (mp : MountPoint) (o : Option Info) (c : Client)
    → Serves c.managers c.instances (digest, mp)
    → Sound c
    → Sound (unmount_from sys digest sn mp o c).0
unfolding unmount_from put
Sound-unmount_from sys digest sn mp none c v h = h
Sound-unmount_from sys digest sn mp (some _) c v h =
    let mq = record mp { snapshots = remove sn mp.snapshots } in
    Sound-unmount_rest sys (remove sn mp.snapshots) mp.fs (put digest mq c)
      (All-insert (Serves c.managers c.instances) digest mq c.layer_map v h)

pub Sound-unmount :
    (sys : System) (digest sn : String) (c : Client) → Sound c → Sound (unmount sys digest sn c).0
unfolding unmount
Sound-unmount sys digest sn c h = elim (Option-cases (lookup digest c.layer_map)) [
  | inl p ↦ rw (unmount, p) h
  | inr (mp, p) ↦
      rw (unmount, p)
        (Sound-unmount_from sys digest sn mp (lookup sn mp.snapshots) c
          (All-lookup (Serves c.managers c.instances) digest mp c.layer_map h p) h)
]

-- Whether the filesystem of an instance is still mounted.
abbrev pub is_torn_down : List Instance → ℕ → Bool
is_torn_down [] f = false
is_torn_down (x ∷ xs) zero = x.torn_down
is_torn_down (x ∷ xs) (suc f) = is_torn_down xs f

torn_down-modify :
    (fs : List Instance) (f : ℕ) (mnt : String)
    → mount_point_at fs f ≡ ok mnt
    → (is_torn_down (modify fs f tear_down) f ≡ true)
      × (mount_point_at (modify fs f tear_down) f ≡ ok mnt)
unfolding mount_point_at tear_down
torn_down-modify [] f mnt h = cc
torn_down-modify (x ∷ xs) zero mnt h = (refl, h)
torn_down-modify (x ∷ xs) (suc f) mnt h = torn_down-modify xs f mnt h

module _ (sys : System) (digest mnt : String) (sn : Info) (f m : ℕ) (mp : MountPoint) (c : Client)
    (entry : lookup digest c.layer_map ≡ some mp) (mounted : mp.fs ≡ some f)
    (managed : mp.manager ≡ some m) (last : mp.snapshots ≡ (sn.name, sn) ∷ [])
    (at : mount_point_at c.instances f ≡ ok mnt) (answer : sys.unmount_server mnt ≡ none) where
  -- The entry that is left, and the client.
  emptied : MountPoint
  emptied = record mp { snapshots = [] }

  left : Client
  unfolding put tear_down
  left = record (put digest emptied c) { instances = modify c.instances f tear_down }

  unmount-left : unmount sys digest sn.name c ≡ (left, none)
  unfolding unmount left emptied unmount_rest unmount_from put lookup remove unmount_last
  unmount-left =
      let found : lookup sn.name mp.snapshots ≡ some sn =
        ap (lookup sn.name) last ∙ rw (==_self sn.name) refl in
      let empty : remove sn.name mp.snapshots ≡ [] =
        ap (remove sn.name) last ∙ rw (==_self sn.name) refl in
      rw (unmount, entry) refl
      ∙ ap (λ o. unmount_from sys digest sn.name mp o c) found
      ∙ ap (λ l. unmount_rest sys l mp.fs (put digest (record mp { snapshots = l }) c)) empty
      ∙ ap (λ o. unmount_rest sys [] o (put digest emptied c)) mounted
      ∙ ap (λ r. unmount_last sys f r (put digest emptied c)) at
      ∙ rw (unmount_last, answer) refl

  mount-left :
      (root ss_id : String) (next : Info) → (mount sys root digest ss_id next left).1 ≡ ok mnt
  unfolding mount mount_at mount_by mount_old left emptied put log_manager
  mount-left root ss_id next =
      rw (mount, lookup-insert_self digest emptied c.layer_map, mounted, managed)
        (torn_down-modify c.instances f mnt at).1

-- If a layer has a filesystem that one snapshot uses, and this snapshot is unmounted, where the
-- system's unmount succeeds, then the next mount of the layer, for whatever snapshot, answers the
-- directory of that filesystem again, although the filesystem has been torn down.
pub mount-unmount :
    (sys : System) (root digest mnt ss_id : String) (sn next : Info) (f m : ℕ) (mp : MountPoint)
    (c : Client)
    → lookup digest c.layer_map ≡ some mp
    → mp.fs ≡ some f
    → mp.manager ≡ some m
    → mp.snapshots ≡ (sn.name, sn) ∷ []
    → mount_point_at c.instances f ≡ ok mnt
    → sys.unmount_server mnt ≡ none
    → ((mount sys root digest ss_id next (unmount sys digest sn.name c).0).1 ≡ ok mnt)
      × (is_torn_down (unmount sys digest sn.name c).0.instances f ≡ true)
unfolding left put
mount-unmount sys root digest mnt ss_id sn next f m mp c e o g l a s =
    let p = unmount-left sys digest mnt sn f m mp c e o g l a s in
    (
      ap (λ r. (mount sys root digest ss_id next r.0).1) p
          ∙ mount-left sys digest mnt sn f m mp c e o g l a s root ss_id next,
      ap (λ r. is_torn_down r.0.instances f) p ∙ (torn_down-modify c.instances f mnt a).0,
    )
