-- ===== src/Client/Snapshotter/Transactions.antt =====
-- Preparing, committing and removing snapshots (client/snapshotter/plugin.go), each in a transaction of
-- containerd's metadata store, which is an interface over its data: a transaction works on a copy,
-- which a commit makes the data. The store lets one writer in at a time; none is that a call waits
-- for one that does not end. The cleaning up of a disconnected mount point is left out.
pub mod Closing
pub mod Refusing
use starlight.Prelude.{
  ℕ, String, Bool, true, false, not, Option, none, some, List, [], ◌∷◌, ◌++◌, nat_comparable,
  text_comparable, if◌then◌else◌, lookup, remove, Outcome, Error, message, ok, error, panic,
}
use starlight.Client.Setup.{join_path}
use starlight.Client.Mounting.{Info}
use starlight.Client.Snapshotter.{PluginClient, Mount, GetInfo}
use starlight.Client.Snapshotter.Mounts.{mounts, get_upper, get_work}

-- storage.GetInfo, CreateSnapshot, CommitActive and Remove; `commit` is what the Commit of a transaction
-- answers.
pub record MetaStore (D : Type 0) : Type 0 where
  pub get_info : D → GetInfo
  pub create_snapshot : Bool → String → String → D → Outcome (D × String)
  pub commit_active : String → String → D → Outcome D
  pub remove : String → D → Outcome D
  pub commit : D → Option String

-- The answers of the file system and of the options; `unmount` is the client's.
pub record Files (S : Type 0) : Type 0 where
  pub apply_options : Info → Outcome Info
  pub mkdir_all : String → Option String
  pub disk_usage : String → Option String
  pub remove_all : String → Option String
  pub unmount : String → String → S → S × Option String

pub record Store (D S : Type 0) : Type 0 where
  pub db : D
  pub writing : Bool
  pub client : S
  pub removed : List String

module _ {D S : Type 0} (ms : MetaStore D) (files : Files S) (plugin : PluginClient S) where
  -- t.Commit(): the transaction is over either way.
  close_with : {A : Type 0} → D → A → Store D S → Store D S × Outcome A
  close_with d a w = elim (ms.commit d) [
    | none ↦ (record w { db = d; writing = false }, ok a)
    | some e ↦ (record w { writing = false }, error (message e))
  ]

  -- A return without the transaction's end, and one after a rollback.
  leave : {A : Type 0} → Error → Store D S → Store D S × Outcome A
  leave e w = (record w { writing = true }, error e)

  roll_back : {A : Type 0} → Error → Store D S → Store D S × Outcome A
  roll_back e w = (record w { writing = false }, error e)

  -- The three directories, in their order.
  make_all : List String → Option String
  make_all [] = none
  make_all (d ∷ ds) = elim (files.mkdir_all d) [ some e ↦ some e | none ↦ make_all ds ]

  prepared :
      D → Store D S → Option (S × Outcome (List Mount)) → Option (Store D S × Outcome (List Mount))
  unfolding close_with leave
  prepared d w none = none
  prepared d w (some (s, ok mnt)) = some (close_with d mnt (record w { client = s }))
  prepared d w (some (s, error e)) = some (leave e (record w { client = s }))
  prepared d w (some (s, panic)) = some (record w { client = s; writing = true }, panic)

  mount_created :
      ℕ
      → String
      → String
      → D
      → Outcome (String × Info)
      → Store D S
      → Option (Store D S × Outcome (List Mount))
  unfolding leave prepared
  mount_created fuel namespace id d (error e) w = some (leave e w)
  mount_created fuel namespace id d panic w = some (record w { writing = true }, panic)
  mount_created fuel namespace id d (ok (_, inf)) w =
      prepared d w (mounts plugin namespace fuel (ms.get_info d) id inf w.client)

  dirs : String → String → List String
  dirs namespace id =
      join_path (plugin.get_mounting_point id) ("slfs" ∷ [])
      ∷ get_upper plugin namespace id
      ∷ get_work plugin namespace id
      ∷ []

  created :
      ℕ
      → String
      → String
      → Outcome (D × String)
      → Store D S
      → Option (Store D S × Outcome (List Mount))
  unfolding roll_back leave make_all dirs mount_created
  created fuel namespace key (error e) w = some (roll_back e w)
  created fuel namespace key panic w = some (record w { writing = true }, panic)
  created fuel namespace key (ok (d, id)) w = elim (make_all (dirs namespace id)) [
    | some e ↦ some (leave (message e) w)
    | none ↦ mount_created fuel namespace id d (ms.get_info d key) w
  ]

  optioned :
      ℕ
      → String
      → String
      → String
      → Bool
      → Outcome Info
      → Store D S
      → Option (Store D S × Outcome (List Mount))
  unfolding leave created
  optioned fuel namespace key parent readonly (error e) w = some (leave e w)
  optioned fuel namespace key parent readonly panic w = some (record w { writing = true }, panic)
  optioned fuel namespace key parent readonly (ok _) w =
      created fuel namespace key (ms.create_snapshot (not readonly) key parent w.db) w

  -- `newSnapshot`. The namespace is the key up to its first slash.
  pub new_snapshot :
      ℕ → String → String → String → Bool → Store D S → Option (Store D S × Outcome (List Mount))
  unfolding optioned
  new_snapshot fuel namespace key parent readonly w =
      if w.writing
      then none
      else optioned fuel namespace key parent readonly
          (files.apply_options (record { name = ""; parent = ""; is_active = false; labels = [] }))
          w

  -- The rest of `Commit`, whose deferred function rolls back on every error.
  committed : Outcome D → Store D S → Store D S × Outcome (Unit {0})
  unfolding roll_back close_with
  committed (error e) w = roll_back e w
  committed panic w = (record w { writing = true }, panic)
  committed (ok d) w = close_with d tt w

  measured : String → String → Option String → Store D S → Store D S × Outcome (Unit {0})
  unfolding roll_back committed
  measured name key (some e) w = roll_back (message e) w
  measured name key none w = committed (ms.commit_active key name w.db) w

  -- A layer of starlight is measured where it is unpacked, and a snapshot of overlayfs by its upper
  -- directory.
  usage_dir : (String → String) → String → String → Info → String
  usage_dir layer_path namespace id inf =
      elim (lookup "containerd.io/snapshot/starlight.ref.uncompressed" inf.labels) [
        | some und ↦ layer_path und
        | none ↦ get_upper plugin namespace id
      ]

  commit_found :
      (String → String)
      → String
      → String
      → String
      → Outcome (String × Info)
      → Store D S
      → Store D S × Outcome (Unit {0})
  unfolding roll_back measured usage_dir
  commit_found layer_path namespace name key (error e) w = roll_back e w
  commit_found layer_path namespace name key panic w = (record w { writing = true }, panic)
  commit_found layer_path namespace name key (ok (id, inf)) w = elim (files.apply_options inf) [
    | error e ↦ roll_back e w
    | panic ↦ (record w { writing = true }, panic)
    | ok inf' ↦ measured name key (files.disk_usage (usage_dir layer_path namespace id inf')) w
  ]

  -- `layer_path` is the client's GetFilesystemPath.
  pub commit :
      (String → String)
      → String
      → String
      → String
      → Store D S
      → Option (Store D S × Outcome (Unit {0}))
  unfolding commit_found
  commit layer_path namespace name key w =
      if w.writing
      then none
      else some (commit_found layer_path namespace name key (ms.get_info w.db key) w)

  -- The rest of `Remove`, behind a commit: the filesystem goes, or the directories.
  answer_of : Option String → Outcome (Unit {0})
  answer_of none = ok tt
  answer_of (some e) = error (message e)

  clear : String → String → Info → Store D S → Store D S × Outcome (Unit {0})
  unfolding answer_of
  clear key id inf w =
      elim (lookup "containerd.io/snapshot/starlight.ref.uncompressed" inf.labels) [
        | some und ↦
            let (s, r) = files.unmount und key w.client in (record w { client = s }, answer_of r)
        | none ↦ (
          record w { removed = w.removed ++ plugin.get_mounting_point id ∷ [] },
          answer_of (files.remove_all (plugin.get_mounting_point id)),
        )
      ]

  -- What the transaction has after storage.Remove, whose error is overwritten.
  left_over : Outcome D → D → D
  left_over (ok d) old = d
  left_over (error _) old = old
  left_over panic old = old

  remove_found : String → Outcome (String × Info) → Store D S → Store D S × Outcome (Unit {0})
  unfolding roll_back clear left_over
  remove_found key (error e) w = roll_back e w
  remove_found key panic w = (record w { writing = true }, panic)
  remove_found key (ok (id, inf)) w =
      let d = left_over (ms.remove key w.db) w.db in
      elim (ms.commit d) [
        | some e ↦ roll_back (message e) w
        | none ↦ clear key id inf (record w { db = d; writing = false })
      ]

  pub remove_snapshot : String → Store D S → Option (Store D S × Outcome (Unit {0}))
  unfolding remove_found
  remove_snapshot key w =
      if w.writing then none else some (remove_found key (ms.get_info w.db key) w)
