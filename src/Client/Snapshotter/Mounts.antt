-- ===== src/Client/Snapshotter/Mounts.antt =====
-- The mounts of a snapshot (`mounts` of client/snapshotter/plugin.go).
pub mod Managers
pub mod Overlay
use starlight.Prelude.{
  ℕ, zero, suc, String, Option, none, some, List, [], ◌∷◌, nat_comparable, text_comparable,
  if◌then◌else◌, Outcome, err_no_manager, message, ok, error, panic,
}
use Prim.Native.String.{◌++◌ as append}
use starlight.Client.Setup.{join_path}
use starlight.Client.Mounting.{Info}
use starlight.Client.Snapshotter.{
  PluginClient, GetInfo, SnapshotItem, Mount, is_starlight_fs, get_starlight_feature, get_fs_stack,
  manifests,
}
use mathlib.Core.List.{reverse}

module _ {ℓ} {S : Type ℓ} (client : PluginClient S) (namespace : String) where
  -- The manifests that are left, from mdsl[mdsidx] on, the first of which has a manager.
  pub prepare_next : List String → S → S × Outcome (List String)
  prepare_next [] s = (s, error (message "no manager"))
  prepare_next (md ∷ mds) s =
      let (t, r) = client.prepare_manager namespace md s in
      let rest = prepare_next mds t in
      elim r [ ok _ ↦ (t, ok (md ∷ mds)) | error _ ↦ rest | panic ↦ (t, panic) ]

  -- The loop around a layer's mount; `again` is the next round.
  retry :
      (List String → S → Option (S × Outcome (String × List String)))
      → S × Outcome (List String)
      → Option (S × Outcome (String × List String))
  retry again (s, ok mds) = again mds s
  retry again (s, error e) = some (s, error e)
  retry again (s, panic) = some (s, panic)

  answered :
      (List String → S → Option (S × Outcome (String × List String)))
      → List String
      → S × Outcome String
      → Option (S × Outcome (String × List String))
  unfolding retry prepare_next
  answered again mds (s, ok m) = some (s, ok (m, mds))
  answered again mds (s, error err_no_manager) = retry again (prepare_next mds s)
  answered again mds (s, error (message e)) = some (s, error (message e))
  answered again mds (s, panic) = some (s, panic)

  pub mount_layer :
      ℕ → String → String → Info → List String → S → Option (S × Outcome (String × List String))
  unfolding answered
  mount_layer zero und ss_id inf mds s = none
  mount_layer (suc fuel) und ss_id inf mds s =
      answered (mount_layer fuel und ss_id inf) mds (client.mount und ss_id inf s)

  pub get_upper : String → String
  get_upper ss_id = join_path (client.get_mounting_point ss_id) ("upper" ∷ [])

  pub get_work : String → String
  get_work ss_id = join_path (client.get_mounting_point ss_id) ("work" ∷ [])

  -- The lower directories, the layers given from the bottom up.
  below : String → Option (S × Outcome (List String)) → Option (S × Outcome (List String))
  below m none = none
  below m (some (s, ok ms)) = some (s, ok (m ∷ ms))
  below m (some (s, error e)) = some (s, error e)
  below m (some (s, panic)) = some (s, panic)

  then_lowers :
      (List String → S → Option (S × Outcome (List String)))
      → Option (S × Outcome (String × List String))
      → Option (S × Outcome (List String))
  unfolding below
  then_lowers rest none = none
  then_lowers rest (some (s, ok (m, mds))) = below m (rest mds s)
  then_lowers rest (some (s, error e)) = some (s, error e)
  then_lowers rest (some (s, panic)) = some (s, panic)

  pub lowers : ℕ → List SnapshotItem → List String → S → Option (S × Outcome (List String))
  unfolding then_lowers is_starlight_fs get_starlight_feature get_upper
  lowers fuel [] mds s = some (s, ok [])
  lowers fuel (si ∷ sis) mds s =
      let rest = lowers fuel sis in
      if is_starlight_fs si
      then then_lowers rest (mount_layer fuel (get_starlight_feature si).1 si.ss_id si.inf mds s)
      else below (get_upper si.ss_id) (rest mds s)

  pub join : List String → String
  join [] = ""
  join (x ∷ []) = x
  join (x ∷ y ∷ ys) = append x (append ":" (join (y ∷ ys)))

  overlay : String → Info → Option (S × Outcome (List String)) → Option (S × Outcome (List Mount))
  unfolding get_upper get_work join
  overlay ss_id inf none = none
  overlay ss_id inf (some (s, error e)) = some (s, error e)
  overlay ss_id inf (some (s, panic)) = some (s, panic)
  overlay ss_id inf (some (s, ok lower)) =
      let dir = append "lowerdir=" (join lower) ∷ [] in
      some (
        s,
        ok (
            record {
              type = "overlay";
              source = "overlay";
              options =
                  if inf.is_active
                  then append "workdir=" (get_work ss_id)
                    ∷ append "upperdir=" (get_upper ss_id)
                    ∷ dir
                  else dir;
            }
            ∷ []),
      )

  -- A snapshot without parents.
  bind : String → String → List Mount
  bind source mode = record { type = "bind"; source = source; options = "rbind" ∷ mode ∷ [] } ∷ []

  bind_mounted : S × Outcome String → Option (S × Outcome (List Mount))
  unfolding bind
  bind_mounted (s, ok m) = some (s, ok (bind m "ro"))
  bind_mounted (s, error e) = some (s, error e)
  bind_mounted (s, panic) = some (s, panic)

  bind_prepared :
      String → String → Info → S × Outcome (Unit {0}) → Option (S × Outcome (List Mount))
  unfolding bind_mounted
  bind_prepared und ss_id inf (s, ok _) = bind_mounted (client.mount und ss_id inf s)
  bind_prepared und ss_id inf (s, error e) = some (s, error e)
  bind_prepared und ss_id inf (s, panic) = some (s, panic)

  mounts_alone : String → Info → S → Option (S × Outcome (List Mount))
  unfolding bind bind_prepared get_upper is_starlight_fs get_starlight_feature
  mounts_alone ss_id inf s =
      let current : SnapshotItem = record { ss_id = ss_id; inf = inf } in
      let (md, und) = get_starlight_feature current in
      let made = bind_prepared und ss_id inf (client.prepare_manager namespace md s) in
      if is_starlight_fs current
      then made
      else some (s, ok (bind (get_upper ss_id) (if inf.is_active then "rw" else "ro")))

  mounts_on :
      ℕ
      → String
      → Info
      → Option (Outcome (List SnapshotItem))
      → S
      → Option (S × Outcome (List Mount))
  unfolding mounts_alone overlay lowers manifests
  mounts_on fuel ss_id inf none s = none
  mounts_on fuel ss_id inf (some (error e)) s = some (s, error e)
  mounts_on fuel ss_id inf (some panic) s = some (s, panic)
  mounts_on fuel ss_id inf (some (ok [])) s = mounts_alone ss_id inf s
  mounts_on fuel ss_id inf (some (ok (si ∷ stack))) s =
      overlay ss_id inf (lowers fuel (reverse (si ∷ stack)) (manifests (si ∷ stack)) s)

  unfoldable pub mounts : ℕ → GetInfo → String → Info → S → Option (S × Outcome (List Mount))
  unfolding mounts_on get_fs_stack
  mounts fuel get_info ss_id inf s = mounts_on fuel ss_id inf (get_fs_stack fuel get_info inf) s
