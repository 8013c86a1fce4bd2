-- ===== src/Client/Mounting/Filesystems.antt =====
-- Mounting and unmounting the filesystem of a layer (`Mount` and `Unmount` of client/client.go,
-- `NewStarlightFS` of client/manager.go).
pub mod Making
pub mod Mounts
pub mod Unmounts
use starlight.Prelude.{
  ℕ, zero, suc, String, true, false, not, Option, none, some, List, [], ◌∷◌, ◌++◌, nat_comparable,
  text_comparable, if◌then◌else◌, length, modify, Map, lookup, insert, remove, panic, ok, error,
  Outcome, message, err_no_manager,
}
use starlight.Client.Setup.{join_path}
use starlight.Client.Mounting.{Instance, LoadedManager, System, MountPoint, Info, Client, hash_at}

-- f.Teardown()
tear_down : Instance → Instance
tear_down f = record f { torn_down = true }

-- fs.NewInstance fails when the server does, and a stack without tree is a panic: the trees are as
-- many as the layers. The filesystem that was there is torn down first, whatever that answers.
serve : ℕ → ℕ → LoadedManager → LoadedManager
serve stack f m = record m { fs = insert stack f m.fs }

fs_at : List LoadedManager → ℕ → ℕ → Option ℕ
fs_at [] i stack = none
fs_at (m ∷ ms) zero stack = lookup stack m.fs
fs_at (m ∷ ms) (suc i) stack = fs_at ms i stack

tear_down_old : System → ℕ → ℕ → Client → Client
unfolding fs_at tear_down
tear_down_old sys m stack c = elim (fs_at c.managers m stack) [
  | none ↦ c
  | some f ↦ record c {
    instances =
        modify c.instances f
          (λ x. elim (sys.unmount_server x.mount_point) [ none ↦ tear_down x | some _ ↦ x ]);
  }
]

unfoldable pub new_starlight_fs : System → ℕ → String → ℕ → Client → Client × Outcome ℕ
unfolding tear_down_old serve
new_starlight_fs sys m mnt stack c =
    let d = tear_down_old sys m stack c in
    elim (hash_at c.managers m stack) [
      | none ↦ (d, panic)
      | some _ ↦ elim (sys.new_server mnt) [
        | some err ↦ (d, error (message err))
        | none ↦ (
          record d {
            managers = modify d.managers m (serve stack (length d.instances));
            instances =
                d.instances
                ++ record { mount_point = mnt; manager = m; stack = stack; torn_down = false } ∷ [];
          },
          ok (length d.instances),
        )
      ]
    ]

-- mp.fs, and mp.snapshots[sn.Name] = sn
set_fs : ℕ → MountPoint → MountPoint
set_fs f mp = record mp { fs = some f }

use_by : Info → MountPoint → MountPoint
use_by sn mp = record mp { snapshots = insert sn.name sn mp.snapshots }

unfoldable pub mount_point_at : List Instance → ℕ → Outcome String
mount_point_at [] f = panic
mount_point_at (x ∷ xs) zero = ok x.mount_point
mount_point_at (x ∷ xs) (suc f) = mount_point_at xs f

put : String → MountPoint → Client → Client
put digest mp c = record c { layer_map = insert digest mp c.layer_map }

-- `mp.manager` is read for the log: a nil manager is a panic.
log_manager : Option ℕ → Outcome String → Outcome String
log_manager none r = panic
log_manager (some _) r = r

-- The filesystem that is there, and one that the manager makes.
mount_old : String → Info → ℕ → MountPoint → Client → Client × Outcome String
unfolding put use_by mount_point_at log_manager
mount_old digest sn f mp c =
    (put digest (use_by sn mp) c, log_manager mp.manager (mount_point_at c.instances f))

mount_new : String → Info → MountPoint → String → Client × Outcome ℕ → Client × Outcome String
unfolding put use_by set_fs
mount_new digest sn mp mnt (c, ok f) = (put digest (use_by sn (set_fs f mp)) c, ok mnt)
mount_new digest sn mp mnt (c, error e) = (c, error e)
mount_new digest sn mp mnt (c, panic) = (c, panic)

-- By mp.fs and mp.manager.
mount_by :
    System
    → String
    → String
    → Info
    → MountPoint
    → Option ℕ
    → Option ℕ
    → Client
    → Client × Outcome String
unfolding mount_old mount_new new_starlight_fs
mount_by sys digest mnt sn mp (some f) _ c = mount_old digest sn f mp c
mount_by sys digest mnt sn mp none (some m) c =
    mount_new digest sn mp mnt (new_starlight_fs sys m mnt mp.stack c)
mount_by sys digest mnt sn mp none none c = (c, error err_no_manager)

mount_at : System → String → String → Info → Option MountPoint → Client → Client × Outcome String
unfolding mount_by
mount_at sys digest mnt sn none c =
    (c, error (message "layer incomplete or not found. remove and pull again"))
mount_at sys digest mnt sn (some mp) c = mount_by sys digest mnt sn mp mp.fs mp.manager c

unfoldable pub mount : System → String → String → String → Info → Client → Client × Outcome String
unfolding mount_at
mount sys root digest ss_id sn c =
    mount_at sys digest (join_path root ("mnt" ∷ ss_id ∷ "slfs" ∷ [])) sn
      (lookup digest c.layer_map) c

-- The filesystem is torn down for the last snapshot; the entry keeps it. That the empty directory of
-- the mount point is removed, whatever that answers, is left out.
unmount_last : System → ℕ → Outcome String → Client → Client × Option String
unfolding tear_down
unmount_last sys f (ok mnt) c = elim (sys.unmount_server mnt) [
  | some err ↦ (c, some err)
  | none ↦ (record c { instances = modify c.instances f tear_down }, none)
]
unmount_last sys f (error _) c = (c, none)
unmount_last sys f panic c = (c, none)

unmount_rest : System → Map String Info → Option ℕ → Client → Client × Option String
unfolding unmount_last mount_point_at
unmount_rest sys (_ ∷ _) f c = (c, none)
unmount_rest sys [] none c = (c, none)
unmount_rest sys [] (some f) c = unmount_last sys f (mount_point_at c.instances f) c

unmount_from : System → String → String → MountPoint → Option Info → Client → Client × Option String
unfolding unmount_rest put
unmount_from sys digest sn mp none c = (c, none)
unmount_from sys digest sn mp (some _) c =
    let left = remove sn mp.snapshots in
    unmount_rest sys left mp.fs (put digest (record mp { snapshots = left }) c)

unfoldable pub unmount : System → String → String → Client → Client × Option String
unfolding unmount_from
unmount sys digest sn c = elim (lookup digest c.layer_map) [
  | none ↦ (c, none)
  | some mp ↦ unmount_from sys digest sn mp (lookup sn mp.snapshots) c
]
