-- ===== src/Client/Snapshotter/Mounts/Overlay.antt =====
-- The lower directories of an overlay (client/snapshotter/plugin.go).
use starlight.Prelude.{
  ℕ, String, ◌≡◌, refl, sym, subst, ◌⊎◌, inl, inr, true, false, Option, none, some, List, [], ◌∷◌,
  nat_comparable, text_comparable, if◌then◌else◌, Bool-cases, Outcome, ok, error, panic,
}
use mathlib.Core.List.{reverse}
use Prim.Native.String.{◌++◌ as append}
use starlight.Client.Mounting.{Info}
use starlight.Client.Snapshotter.{
  PluginClient, GetInfo, SnapshotItem, Mount, is_starlight_fs, get_starlight_feature, get_fs_stack,
  manifests,
}
use starlight.Client.Snapshotter.Mounts.{
  mount_layer, get_upper, get_work, below, then_lowers, lowers, join, overlay, mounts_on, mounts,
}
use starlight.Client.Snapshotter.Mounts.Managers.{Told, Told-mount_layer}

module _ {S : Type 0} (client : PluginClient S) (namespace : String) where
  -- The directory of one snapshot: of a layer, what a mount of it answered, and else its own.
  abbrev pub Placed : SnapshotItem → String → Type 0
  Placed si m =
      ((is_starlight_fs si ≡ true)
        × (s : S) × (t : S) × (client.mount (get_starlight_feature si).1 si.ss_id si.inf s
            ≡ (t, ok m)))
      ⊎ ((is_starlight_fs si ≡ false) × (m ≡ get_upper client namespace si.ss_id))

  abbrev pub Places : List SnapshotItem → List String → Type 0
  Places [] [] = Unit
  Places [] (_ ∷ _) = ⊥
  Places (_ ∷ _) [] = ⊥
  Places (si ∷ sis) (m ∷ ms) = Placed si m × Places sis ms

  abbrev Answer : List SnapshotItem → Option (S × Outcome (List String)) → Type 0
  Answer sis none = Unit
  Answer sis (some (_, ok ms)) = Places sis ms
  Answer sis (some (_, error _)) = Unit
  Answer sis (some (_, panic)) = Unit

  Answer-below :
      (si : SnapshotItem) (sis : List SnapshotItem) (m : String)
      (r : Option (S × Outcome (List String)))
      → Placed si m
      → Answer sis r
      → Answer (si ∷ sis) (below client namespace m r)
  unfolding below
  Answer-below si sis m none p h = tt
  Answer-below si sis m (some (_, ok ms)) p h = (p, h)
  Answer-below si sis m (some (_, error _)) p h = tt
  Answer-below si sis m (some (_, panic)) p h = tt

  Answer-then_lowers :
      (si : SnapshotItem) (sis : List SnapshotItem)
      (rest : List String → S → Option (S × Outcome (List String)))
      → is_starlight_fs si ≡ true
      → ((mds : List String) (s : S) → Answer sis (rest mds s))
      → (r : Option (S × Outcome (String × List String)))
      → Told client namespace (get_starlight_feature si).1 si.ss_id si.inf r
      → Answer (si ∷ sis) (then_lowers client namespace rest r)
  unfolding then_lowers
  Answer-then_lowers si sis rest p h none q = tt
  Answer-then_lowers si sis rest p h (some (t, ok (m, mds))) q =
      Answer-below si sis m (rest mds t) (inl (p, q.0, t, q.1)) (h mds t)
  Answer-then_lowers si sis rest p h (some (t, error e)) q = tt
  Answer-then_lowers si sis rest p h (some (t, panic)) q = tt

  Answer-lowers :
      (fuel : ℕ) (sis : List SnapshotItem) (mds : List String) (s : S)
      → Answer sis (lowers client namespace fuel sis mds s)
  unfolding lowers
  Answer-lowers fuel [] mds s = tt
  Answer-lowers fuel (si ∷ sis) mds s = elim (Bool-cases (is_starlight_fs si)) [
    | inl p ↦
        rw (lowers, p)
          (Answer-then_lowers si sis (lowers client namespace fuel sis) p (Answer-lowers fuel sis)
            (mount_layer client namespace fuel (get_starlight_feature si).1 si.ss_id si.inf mds s)
            (Told-mount_layer client namespace (get_starlight_feature si).1 si.ss_id si.inf fuel mds
              s))
    | inr p ↦
        rw (lowers, p)
          (Answer-below si sis (get_upper client namespace si.ss_id)
            (lowers client namespace fuel sis mds s) (inr (p, refl)) (Answer-lowers fuel sis mds s))
  ]

-- What `mounts` answers for a snapshot with ancestors: one overlay, whose lower directories are those
-- of the ancestors from the root up to the parent.
abbrev pub Overlaid :
    {S : Type 0}
    → PluginClient S
    → String
    → String
    → Info
    → List SnapshotItem
    → Option (S × Outcome (List Mount))
    → Type 0
Overlaid client namespace ss_id inf stack none = Unit
Overlaid client namespace ss_id inf stack (some (_, error _)) = Unit
Overlaid client namespace ss_id inf stack (some (_, panic)) = Unit
Overlaid client namespace ss_id inf stack (some (_, ok result)) =
    (ms : List String) × Places client namespace (reverse stack) ms
    × (result
        ≡ record {
          type = "overlay";
          source = "overlay";
          options =
              if inf.is_active
              then append "workdir=" (get_work client namespace ss_id)
                ∷ append "upperdir=" (get_upper client namespace ss_id)
                ∷ append "lowerdir=" (join client namespace ms)
                ∷ []
              else append "lowerdir=" (join client namespace ms) ∷ [];
        }
          ∷ [])

Overlaid-overlay :
    {S : Type 0} (client : PluginClient S) (namespace ss_id : String) (inf : Info)
    (stack : List SnapshotItem) (r : Option (S × Outcome (List String)))
    → Answer client namespace (reverse stack) r
    → Overlaid client namespace ss_id inf stack (overlay client namespace ss_id inf r)
unfolding overlay
Overlaid-overlay client namespace ss_id inf stack none h = tt
Overlaid-overlay client namespace ss_id inf stack (some (_, error e)) h = tt
Overlaid-overlay client namespace ss_id inf stack (some (_, panic)) h = tt
Overlaid-overlay client namespace ss_id inf stack (some (_, ok ms)) h = (ms, h, refl)

-- For a snapshot whose ancestors the walk has found, parent first, a successful answer is a single
-- overlay mount. Its lower directories are one for each ancestor: what a mount of the layer answered,
-- if the ancestor is one of starlight's, and the ancestor's own upper directory if not. They stand in
-- the option from the left in the order from the root to the parent, the parent's last. The snapshot's
-- own directories are options only when it is active.
pub mounts-Overlaid :
    {S : Type 0} (client : PluginClient S) (namespace ss_id : String) (fuel : ℕ)
    (get_info : GetInfo) (inf : Info) (si : SnapshotItem) (stack : List SnapshotItem) (s : S)
    → get_fs_stack fuel get_info inf ≡ some (ok (si ∷ stack))
    → Overlaid client namespace ss_id inf
        (si ∷ stack)
        (mounts client namespace fuel get_info ss_id inf s)
unfolding mounts mounts_on
mounts-Overlaid client namespace ss_id fuel get_info inf si stack s p =
    subst
      (λ r.
        Overlaid client namespace ss_id inf (si ∷ stack)
          (mounts_on client namespace fuel ss_id inf r s))
      (sym p)
      (Overlaid-overlay client namespace ss_id inf (si ∷ stack)
        (lowers client namespace fuel (reverse (si ∷ stack)) (manifests (si ∷ stack)) s)
        (Answer-lowers client namespace fuel (reverse (si ∷ stack)) (manifests (si ∷ stack)) s))
