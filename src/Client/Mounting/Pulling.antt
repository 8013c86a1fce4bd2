-- ===== src/Client/Mounting/Pulling.antt =====
-- What pulling an image does to the managers and the layer map (`PullImage` of client/client.go between
-- the manager's creation and the signal that the image is ready, `CreateSnapshots` of
-- client/manager.go).
use starlight.Prelude.{
  ℕ, ◌+◌, String, Option, none, some, List, [], ◌∷◌, nat_comparable, text_comparable, remove,
  Outcome, message, ok, error, panic, Option-cases, inl, inr, lookup, ◌≡◌,
}
use starlight.Client.Mounting.{Client, hash_at, link_layer}
use starlight.Client.Mounting.Loading.{add_manager}
use starlight.Client.Extract.{Manager}

-- A manager in the cache is removed first.
unfoldable pub register : String → Manager → Client → Client
register digest image c =
    add_manager digest image (record c { manager_map = remove digest c.manager_map })

-- What `AddSnapshot` does to the client: the snapshotter calls it back to mount layers. The arguments
-- are the chain, the parent, the manifest, the layer and the stack.
abbrev pub AddSnapshot : Type 0
AddSnapshot = String → String → String → String → ℕ → Client → Client × Option String

added :
    (Client → Client × Outcome (Unit {0})) → Client × Option String → Client × Outcome (Unit {0})
added rest (c, some e) = (c, error (message e))
added rest (c, none) = rest c

create_from :
    AddSnapshot → ℕ → String → List String → ℕ → String → Client → Client × Outcome (Unit {0})
unfolding link_layer hash_at added
create_from add m manifest [] idx prev c = (c, ok tt)
create_from add m manifest (chain ∷ chains) idx prev c = elim (hash_at c.managers m idx) [
  | none ↦ (c, panic)
  | some digest ↦
      added (create_from add m manifest chains (idx + 1) chain)
        (add chain prev manifest digest idx (link_layer m idx digest c))
]

-- The chains are those of the layers' differences, computed by image-spec's identity.ChainIDs.
unfoldable pub create_snapshots :
    AddSnapshot → ℕ → String → List String → Client → Client × Outcome (Unit {0})
unfolding create_from
create_snapshots add m manifest chains c = create_from add m manifest chains 0 "" c

-- What the layer map's writes and the snapshots' service keep, the whole loop keeps.
module _ (P : Client → Type 0) (add : AddSnapshot) (m : ℕ) (manifest : String)
    (links : (stack : ℕ) (digest : String) (c : Client) → P c → P (link_layer m stack digest c))
    (adds : (chain prev digest : String) (idx : ℕ) (c : Client)
      → P c
      → P (add chain prev manifest digest idx c).0) where
  added_keeps :
      (rest : Client → Client × Outcome (Unit {0}))
      → ((c : Client) → P c → P (rest c).0)
      → (r : Client × Option String) → P r.0
      → P (added rest r).0
  unfolding added
  added_keeps rest h (c, some e) p = p
  added_keeps rest h (c, none) p = h c p

  create_from_keeps :
      (chains : List String) (idx : ℕ) (prev : String) (c : Client)
      → P c
      → P (create_from add m manifest chains idx prev c).0
  unfolding create_from
  create_from_keeps [] idx prev c p = p
  create_from_keeps (chain ∷ chains) idx prev c p = elim (Option-cases (hash_at c.managers m idx)) [
    | inl a ↦ rw (create_from, a) p
    | inr (digest, a) ↦
        rw (create_from, a)
          (added_keeps (create_from add m manifest chains (idx + 1) chain)
            (create_from_keeps chains (idx + 1) chain)
            (add chain prev manifest digest idx (link_layer m idx digest c))
            (adds chain prev digest idx (link_layer m idx digest c) (links idx digest c p)))
  ]

  pub create_snapshots_keeps :
      (chains : List String) (c : Client) → P c → P (create_snapshots add m manifest chains c).0
  unfolding create_snapshots
  create_snapshots_keeps chains c p = create_from_keeps chains 0 "" c p

-- An image that is in memory stays there.
pub create_snapshots_mapped :
    (add : AddSnapshot) (m : ℕ) (manifest : String)
    (adds : (chain prev digest : String) (idx : ℕ) (c : Client) (i : ℕ)
      → lookup manifest c.manager_map ≡ some i
      → (j : ℕ) × (lookup manifest (add chain prev manifest digest idx c).0.manager_map ≡ some j))
    (chains : List String) (c : Client) (i : ℕ)
    → lookup manifest c.manager_map ≡ some i
    → (j : ℕ) × (lookup manifest (create_snapshots add m manifest chains c).0.manager_map ≡ some j)
unfolding link_layer
create_snapshots_mapped add m manifest adds chains c i h =
    create_snapshots_keeps (λ c. (j : ℕ) × (lookup manifest c.manager_map ≡ some j)) add m manifest
      (λ stack layer c h. h) (λ chain prev layer idx c h. adds chain prev layer idx c h.0 h.1)
      chains c (i, h)
