-- ===== src/Client/Snapshotter/Transactions/Refusing.antt =====
-- The removal of a snapshot that the store refuses to remove (client/snapshotter/plugin.go).
use starlight.Prelude.{
  String, ◌≡◌, refl, false, none, some, nat_comparable, text_comparable, lookup, Outcome, ok, error,
  Error, ◌++◌, ◌∷◌, [], ap, if◌then◌else◌, ◌∙◌,
}
use starlight.Client.Mounting.{Info}
use starlight.Client.Snapshotter.{PluginClient}
use starlight.Client.Snapshotter.Transactions.{
  MetaStore, Files, Store, clear, left_over, remove_found, remove_snapshot, answer_of,
}

-- What the call gets rid of outside the store, which succeeds: the directory of a snapshot of
-- overlayfs, or the mount of one of starlight.
pub data Discards {S : Type 0} (files : Files S) (plugin : PluginClient S) (key id : String)
    (inf : Info) (s : S) : Type 0 where
  directory :
      lookup "containerd.io/snapshot/starlight.ref.uncompressed" inf.labels ≡ none
      → files.remove_all (plugin.get_mounting_point id) ≡ none
      → Discards files plugin key id inf s
  layer_mount :
      (und : String) (t : S)
      → lookup "containerd.io/snapshot/starlight.ref.uncompressed" inf.labels ≡ some und
      → files.unmount und key s ≡ (t, none)
      → Discards files plugin key id inf s

abbrev pub discarded :
    {D S : Type 0} {files : Files S} {plugin : PluginClient S} {key id : String} {inf : Info}
    {s : S}
    → Discards files plugin key id inf s
    → Store D S
    → Store D S
discarded {plugin = plugin} {id = id} (directory _ _) w = record w {
  writing = false;
  removed = w.removed ++ plugin.get_mounting_point id ∷ [];
}
discarded (layer_mount _ t _ _) w = record w { writing = false; client = t }

module _ {D S : Type 0} (ms : MetaStore D) (files : Files S) (plugin : PluginClient S)
    (key id : String) (inf : Info) where
  clear-discarded :
      (w : Store D S) (x : Discards files plugin key id inf w.client)
      → clear ms files plugin key id inf (record w { writing = false }) ≡ (discarded x w, ok tt)
  unfolding clear answer_of
  clear-discarded w (directory l f) = rw (clear, l, f) refl
  clear-discarded w (layer_mount und t l u) =
      rw (clear, l)
        (ap (λ r. (record w { writing = false; client = r.0 }, answer_of ms files plugin r.1)) u)

-- If the store refuses to remove a snapshot, say because it has children, the transaction can be
-- committed, and the directory of the snapshot can be removed, or its mount when it is one of
-- starlight, then the removal succeeds although it was refused: the directory or the mount is gone, and
-- the store is unchanged and still has the snapshot.
pub remove_snapshot_refused :
    {D S : Type 0} (ms : MetaStore D) (files : Files S) (plugin : PluginClient S) (key id : String)
    (inf : Info) (e : Error) (w : Store D S) (x : Discards files plugin key id inf w.client)
    → w.writing ≡ false
    → ms.get_info w.db key ≡ ok (id, inf)
    → ms.remove key w.db ≡ error e
    → ms.commit w.db ≡ none
    → (remove_snapshot ms files plugin key w ≡ some (discarded x w, ok tt))
      × ((discarded x w).db ≡ w.db)
      × (ms.get_info (discarded x w).db key ≡ ok (id, inf))
unfolding remove_snapshot remove_found left_over
remove_snapshot_refused ms files plugin key id inf e w x h g r c =
    let found = λ (y : Outcome (String × Info)). remove_found ms files plugin key y w in
    let same = same_db x in
    (
      ap (λ b. if b then none else some (found (ms.get_info w.db key))) h
          ∙ ap (λ y. some (found y)) g
          ∙ ap some refused_then_cleared,
      same,
      ap (λ d. ms.get_info d key) same ∙ g,
    )
  where
    same_db : (y : Discards files plugin key id inf w.client) → (discarded y w).db ≡ w.db
    same_db (directory _ _) = refl
    same_db (layer_mount _ _ _ _) = refl

    refused_then_cleared :
        remove_found ms files plugin key (ok (id, inf)) w ≡ (discarded x w, ok tt)
    refused_then_cleared =
        rw (remove_found, r, c)
          (ap
              (λ y.
                clear ms files plugin key id inf
                  (record w { db = left_over ms files plugin y w.db; writing = false }))
              r
            ∙ clear-discarded ms files plugin key id inf w x)
