-- ===== src/Client/Snapshotter.antt =====
-- The snapshotter plugin (client/snapshotter/plugin.go): the chain of a snapshot's
-- parents, and what the labels say. The client that it
-- calls is an interface over a state, and containerd's metadata store is a function. A loop that
-- may not end runs on fuel; none is that it has not ended.
pub mod Service
pub mod Chain
pub mod Mounts
pub mod Transactions
use starlight.Prelude.{
  ℕ, zero, suc, String, Bool, not, Option, none, some, List, [], ◌∷◌, ◌==◌, nat_comparable,
  text_comparable, if◌then◌else◌, contains, lookup, Outcome, ok, error, panic,
}
use starlight.Client.Mounting.{Info}

-- PluginClient, without the call that unmounts.
pub record PluginClient {ℓ} (S : Type ℓ) : Type ℓ where
  pub get_mounting_point : String → String
  pub prepare_manager : String → String → S → S × Outcome (Unit {0})
  pub mount : String → String → Info → S → S × Outcome String

-- storage.GetInfo: the snapshot's id and what is known of it.
abbrev pub GetInfo : Type 0
GetInfo = String → Outcome (String × Info)

pub record SnapshotItem : Type 0 where
  pub ss_id : String
  pub inf : Info

pub record Mount : Type 0 where
  pub type : String
  pub source : String
  pub options : List String

or_empty : Option String → String
or_empty none = ""
or_empty (some s) = s

pub label : String → Info → String
unfolding or_empty
label key inf = or_empty (lookup key inf.labels)

pub is_starlight_fs : SnapshotItem → Bool
unfolding label
is_starlight_fs si = not (label "containerd.io/snapshot/starlight.ref.uncompressed" si.inf == "")

-- GetStarlightFeature: the manifest, and the uncompressed digest. The third result is always 0.
pub get_starlight_feature : SnapshotItem → String × String
unfolding label
get_starlight_feature si = (
  label "containerd.io/snapshot/starlight.ref.image" si.inf,
  label "containerd.io/snapshot/starlight.ref.uncompressed" si.inf,
)

prepend : SnapshotItem → Option (Outcome (List SnapshotItem)) → Option (Outcome (List SnapshotItem))
prepend item none = none
prepend item (some (ok items)) = some (ok (item ∷ items))
prepend item (some (error e)) = some (error e)
prepend item (some panic) = some panic

-- `getFsStack`: from the parent up to the root.
parent_item :
    Outcome (String × Info)
    → (Info → Option (Outcome (List SnapshotItem)))
    → Option (Outcome (List SnapshotItem))
unfolding prepend
parent_item (error e) rest = some (error e)
parent_item panic rest = some panic
parent_item (ok (id, inf)) rest = prepend (record { ss_id = id; inf = inf }) (rest inf)

unfoldable pub get_fs_stack : ℕ → GetInfo → Info → Option (Outcome (List SnapshotItem))
unfolding parent_item
get_fs_stack zero get_info cur = none
get_fs_stack (suc fuel) get_info cur =
    let step = parent_item (get_info cur.parent) (get_fs_stack fuel get_info) in
    if cur.parent == "" then some (ok []) else step

-- The manifests of the stack, each once, in the order of their first occurrence.
manifests_from : List String → List SnapshotItem → List String
unfolding get_starlight_feature
manifests_from seen [] = []
manifests_from seen (si ∷ stack) =
    let md = (get_starlight_feature si).0 in
    let rest = manifests_from (md ∷ seen) stack in
    let skipped = manifests_from seen stack in if contains seen md then skipped else md ∷ rest

pub manifests : List SnapshotItem → List String
unfolding manifests_from
manifests stack = manifests_from [] stack
