-- ===== src/Client/Mounting/Filesystems/Mounts.antt =====
-- What a mount answers and leaves (`Mount` of client/client.go).
-- What a successful mount leaves: the entry of the layer has a filesystem that was made for the layer,
-- at the directory that is answered, and the snapshot is among those that use it.
use starlight.Prelude.{
  ℕ, zero, suc, String, ◌≡◌, refl, sym, ap, ◌∙◌, subst, ◌≢◌, inl, inr, Option, none, some, List, [],
  ◌∷◌, nat_comparable, text_comparable, Option-cases, lookup, Outcome, ok, error, panic,
  lookup-insert_self, err_no_manager, message,
}
use starlight.Client.Mounting.{Info, System, Client, MountPoint, LoadedManager, Instance, hash_at}
use starlight.Client.Mounting.Serving.{shown, Sound, Serves, All-insert, Shows, All-lookup, Manages}
use starlight.Client.Mounting.Filesystems.{
  mount, mount_point_at, put, mount_old, mount_new, use_by, set_fs, log_manager, mount_by, mount_at,
  new_starlight_fs,
}
use starlight.Client.Mounting.Filesystems.Making.{
  Made, Sound-new_starlight_fs, new_starlight_fs-panic,
}
use starlight.Client.Setup.{join_path}
use mathlib.Core.Path.{ap₂}

abbrev pub Mounted : String → Info → Client → Outcome String → Type 0
Mounted digest sn c (ok mnt) =
    (mp : MountPoint) × (f : ℕ) × (lookup digest c.layer_map ≡ some mp)
    × (mp.fs ≡ some f)
    × (shown c.managers c.instances f ≡ some digest)
    × (mount_point_at c.instances f ≡ ok mnt)
    × (lookup sn.name mp.snapshots ≡ some sn)
Mounted digest sn c (error _) = Unit
Mounted digest sn c panic = ⊥

abbrev Good : String → Info → Client × Outcome String → Type 0
Good digest sn r = Sound r.0 × Mounted digest sn r.0 r.1

shown-mount_point :
    (ms : List LoadedManager) (fs : List Instance) (f : ℕ) (digest : String)
    → shown ms fs f ≡ some digest
    → (mnt : String) × (mount_point_at fs f ≡ ok mnt)
unfolding shown mount_point_at
shown-mount_point ms [] f digest h = cc
shown-mount_point ms (x ∷ xs) zero digest h = (x.mount_point, refl)
shown-mount_point ms (x ∷ xs) (suc f) digest h = shown-mount_point ms xs f digest h

-- The entry of the layer, once the snapshot and the filesystem are written into it.
Good-put :
    (digest mnt : String) (sn : Info) (f : ℕ) (mp : MountPoint) (c : Client)
    → Sound c
    → Serves c.managers c.instances (digest, mp)
    → mp.manager ≢ none
    → shown c.managers c.instances f ≡ some digest
    → mount_point_at c.instances f ≡ ok mnt
    → Good digest sn (put digest (use_by sn (set_fs f mp)) c, ok mnt)
unfolding put use_by set_fs
Good-put digest mnt sn f mp c h v n e q =
    let mq = use_by sn (set_fs f mp) in
    (
      All-insert (Serves c.managers c.instances) digest mq c.layer_map (v.0, (e, n)) h,
      (
        mq,
        f,
        lookup-insert_self digest mq c.layer_map,
        refl,
        e,
        q,
        lookup-insert_self sn.name sn mp.snapshots,
      ),
    )

Good-mount_old :
    (digest : String) (sn : Info) (f : ℕ) (mp : MountPoint) (c : Client)
    → Sound c
    → Serves c.managers c.instances (digest, mp)
    → mp.fs ≡ some f
    → Good digest sn (mount_old digest sn f mp c)
unfolding mount_old set_fs use_by log_manager
Good-mount_old digest sn f mp c h v p =
    let s = subst (λ o. Shows c.managers c.instances o mp.manager digest) p v.1 in
    let (mnt, q) = shown-mount_point c.managers c.instances f digest s.0 in
    elim (Option-cases mp.manager) [
      | inl e ↦ absurd (s.1 e)
      | inr (m, e) ↦
          subst (λ r. Good digest sn (put digest (use_by sn mp) c, r)) (sym (ap₂ log_manager e q))
            (subst (λ o. Good digest sn (put digest (use_by sn (record mp { fs = o })) c, ok mnt))
              (sym p) (Good-put digest mnt sn f mp c h v s.1 s.0 q))
    ]

Good-mount_new :
    (digest mnt : String) (sn : Info) (mp : MountPoint) (c : Client) (r : Client × Outcome ℕ)
    → Sound r.0
    → lookup digest r.0.layer_map ≡ some mp
    → mp.manager ≢ none
    → r.1 ≢ panic
    → Made digest mnt r.0 r.1 c
    → Good digest sn (mount_new digest sn mp mnt r)
unfolding mount_new
Good-mount_new digest mnt sn mp c (d, ok f) h p n x k =
    Good-put digest mnt sn f mp d h
      (All-lookup (Serves d.managers d.instances) digest mp d.layer_map h p) n k.0 k.1
Good-mount_new digest mnt sn mp c (d, error e) h p n x k = (h, tt)
Good-mount_new digest mnt sn mp c (d, panic) h p n x k = absurd (x refl)

module _ (sys : System) (digest mnt : String) (sn : Info) (c : Client) (h : Sound c) where
  Good-mount_by :
      (mp : MountPoint) (f m : Option ℕ)
      → lookup digest c.layer_map ≡ some mp
      → Serves c.managers c.instances (digest, mp)
      → mp.fs ≡ f
      → mp.manager ≡ m
      → Good digest sn (mount_by sys digest mnt sn mp f m c)
  unfolding mount_by
  Good-mount_by mp (some f) m p v q n = Good-mount_old digest sn f mp c h v q
  Good-mount_by mp none none p v q n = (h, tt)
  Good-mount_by mp none (some m) p v q n =
      let e = subst (λ o. Manages c.managers o mp.stack digest) n v.0 in
      let k = Sound-new_starlight_fs sys m mp.stack mnt digest c e h in
      Good-mount_new digest mnt sn mp c (new_starlight_fs sys m mnt mp.stack c) k.0
        (ap (lookup digest) k.1 ∙ p) (λ x. cc)
        (new_starlight_fs-panic sys m mp.stack mnt digest c e) k.2

  Good-mount_at :
      (o : Option MountPoint)
      → lookup digest c.layer_map ≡ o
      → Good digest sn (mount_at sys digest mnt sn o c)
  unfolding mount_at
  Good-mount_at none p = (h, tt)
  Good-mount_at (some mp) p =
      Good-mount_by mp mp.fs mp.manager p
        (All-lookup (Serves c.managers c.instances) digest mp c.layer_map h p) refl refl

pub Good-mount :
    (sys : System) (root digest ss_id : String) (sn : Info) (c : Client)
    → Sound c
    → Sound (mount sys root digest ss_id sn c).0
      × Mounted digest sn (mount sys root digest ss_id sn c).0 (mount sys root digest ss_id sn c).1
unfolding mount
Good-mount sys root digest ss_id sn c h =
    Good-mount_at sys digest (join_path root ("mnt" ∷ ss_id ∷ "slfs" ∷ [])) sn c h
      (lookup digest c.layer_map) refl

-- An entry that has neither filesystem nor manager.
pub mount_without_manager :
    (sys : System) (root digest ss_id : String) (sn : Info) (mp : MountPoint) (c : Client)
    → lookup digest c.layer_map ≡ some mp
    → mp.fs ≡ none
    → mp.manager ≡ none
    → mount sys root digest ss_id sn c ≡ (c, error err_no_manager)
unfolding mount mount_at mount_by
mount_without_manager sys root digest ss_id sn mp c p q n = rw (mount, p, q, n) refl

-- An entry that has a manager.
log_manager-error :
    (o : Option ℕ) (xs : List Instance) (f : ℕ)
    → log_manager o (mount_point_at xs f) ≢ error err_no_manager
unfolding log_manager mount_point_at
log_manager-error none xs f = λ q. cc
log_manager-error (some m) [] f = λ q. cc
log_manager-error (some m) (x ∷ xs) zero = λ q. cc
log_manager-error (some m) (x ∷ xs) (suc f) = log_manager-error (some m) xs f

new_starlight_fs-error :
    (sys : System) (m stack : ℕ) (mnt : String) (c : Client)
    → (new_starlight_fs sys m mnt stack c).1 ≢ error err_no_manager
unfolding new_starlight_fs
new_starlight_fs-error sys m stack mnt c = elim (Option-cases (hash_at c.managers m stack)) [
  | inl p ↦ rw (new_starlight_fs, p) (λ q. cc)
  | inr (h, p) ↦ elim (Option-cases (sys.new_server mnt)) [
    | inl e ↦ rw (new_starlight_fs, p, e) (λ q. cc)
    | inr (t, e) ↦ rw (new_starlight_fs, p, e) (λ q. cc)
  ]
]

mount_new-error :
    (digest mnt : String) (sn : Info) (mp : MountPoint) (r : Client × Outcome ℕ)
    → r.1 ≢ error err_no_manager
    → (mount_new digest sn mp mnt r).1 ≢ error err_no_manager
unfolding mount_new
mount_new-error digest mnt sn mp (d, ok f) n = λ q. cc
mount_new-error digest mnt sn mp (d, error err_no_manager) n = absurd (n refl)
mount_new-error digest mnt sn mp (d, error (message e)) n = λ q. cc
mount_new-error digest mnt sn mp (d, panic) n = λ q. cc

mount_by-error :
    (sys : System) (digest mnt : String) (sn : Info) (mp : MountPoint) (f : Option ℕ) (i : ℕ)
    (c : Client)
    → (mount_by sys digest mnt sn mp f (some i) c).1 ≢ error err_no_manager
unfolding mount_by mount_old
mount_by-error sys digest mnt sn mp (some f) i c = log_manager-error mp.manager c.instances f
mount_by-error sys digest mnt sn mp none i c =
    mount_new-error digest mnt sn mp (new_starlight_fs sys i mnt mp.stack c)
      (new_starlight_fs-error sys i mp.stack mnt c)

pub mount_managed :
    (sys : System) (root digest ss_id : String) (sn : Info) (mp : MountPoint) (i : ℕ) (c : Client)
    → lookup digest c.layer_map ≡ some mp
    → mp.manager ≡ some i
    → (mount sys root digest ss_id sn c).1 ≢ error err_no_manager
unfolding mount mount_at
mount_managed sys root digest ss_id sn mp i c p n =
    let mnt = join_path root ("mnt" ∷ ss_id ∷ "slfs" ∷ []) in
    subst (λ o. (mount_at sys digest mnt sn o c).1 ≢ error err_no_manager) (sym p)
      (subst (λ o. (mount_by sys digest mnt sn mp mp.fs o c).1 ≢ error err_no_manager) (sym n)
        (mount_by-error sys digest mnt sn mp mp.fs i c))
