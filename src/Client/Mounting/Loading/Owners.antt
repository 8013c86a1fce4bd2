-- ===== src/Client/Mounting/Loading/Owners.antt =====
-- Which manager the entry of a layer has after the layers of an image are linked (client/client.go).
use starlight.Prelude.{
  ℕ, zero, suc, ◌+◌, ◌<◌, String, ◌≡◌, refl, ap, ◌∙◌, subst, inl, inr, false, Option, none, some,
  List, [], ◌∷◌, arith, ◌==◌, nat_comparable, text_comparable, if◌then◌else◌, Bool-cases,
  Option-cases, length, lookup, lookup-insert, Outcome, ok, error, panic, lookup-insert_self, sym,
}
use starlight.Client.Mounting.{MountPoint, Client, hash_at, link, link_layer, link_layers, fresh}

-- The layer has an entry with this manager.
abbrev pub Managed : ℕ → String → Client → Type 0
Managed i digest c =
    (mp : MountPoint) × (lookup digest c.layer_map ≡ some mp) × (mp.manager ≡ some i)

-- The manager that an entry has, or the one given if it has none.
unfoldable pub owner : ℕ → Option MountPoint → ℕ
owner m none = m
owner m (some mp) = elim mp.manager [ none ↦ m | some i ↦ i ]

link-manager : (m stack : ℕ) (o : Option MountPoint) → (link m stack o).manager ≡ some (owner m o)
unfolding link fresh owner
link-manager m stack none = refl
link-manager m stack (some mp) = elim (Option-cases mp.manager) [
  | inl p ↦ rw (link, owner, p) refl
  | inr (i, p) ↦ rw (link, owner, p) p
]

owner_kept : (m i : ℕ) (mp : MountPoint) → mp.manager ≡ some i → owner m (some mp) ≡ i
unfolding owner
owner_kept m i mp p = rw (owner, p) refl

-- The manager that a layer has, or will have once the layers of `m` are linked.
abbrev pub owner_in : ℕ → String → Client → ℕ
owner_in m digest c = owner m (lookup digest c.layer_map)

Managed-now :
    (m stack : ℕ) (digest : String) (c : Client)
    → Managed (owner_in m digest c) digest (link_layer m stack digest c)
unfolding link_layer
Managed-now m stack digest c =
    let mp = link m stack (lookup digest c.layer_map) in
    (mp, lookup-insert_self digest mp c.layer_map, link-manager m stack (lookup digest c.layer_map))

lookup-link_layer :
    (m stack : ℕ) (digest other : String) (c : Client)
    → (digest == other) ≡ false
    → lookup other (link_layer m stack digest c).layer_map ≡ lookup other c.layer_map
unfolding link_layer
lookup-link_layer m stack digest other c q =
    lookup-insert digest other (link m stack (lookup digest c.layer_map)) c.layer_map
    ∙ ap
        (λ b.
          if b then some (link m stack (lookup digest c.layer_map)) else lookup other c.layer_map)
        q

Managed-still :
    (m stack : ℕ) (digest other : String) (c : Client) (i : ℕ)
    → Managed i other c
    → Managed i other (link_layer m stack digest c)
Managed-still m stack digest other c i (mp, p, n) = elim (Bool-cases (digest == other)) [
  | inl q ↦
      subst (λ d. Managed i other (link_layer m stack d c))
        (sym ((text_comparable.agrees digest other).0 q))
        (subst (λ k. Managed k other (link_layer m stack other c))
          (ap (owner m) p ∙ owner_kept m i mp n) (Managed-now m stack other c))
  | inr q ↦ (mp, lookup-link_layer m stack digest other c q ∙ p, n)
]

-- Linking a layer does not change which manager a layer comes to have.
owner-link_layer :
    (m stack : ℕ) (digest other : String) (c : Client)
    → owner_in m other (link_layer m stack digest c) ≡ owner_in m other c
owner-link_layer m stack digest other c = elim (Bool-cases (digest == other)) [
  | inl q ↦
      let e = (text_comparable.agrees digest other).0 q in
      let (mp, p, n) = Managed-now m stack digest c in
      subst (λ d. owner_in m d (link_layer m stack digest c) ≡ owner_in m d c) e
        (ap (owner m) p ∙ owner_kept m (owner_in m digest c) mp n)
  | inr q ↦ ap (owner m) (lookup-link_layer m stack digest other c q)
]

-- What holds of the client that the loop answers, if it does.
abbrev pub Then : (Client → Type 0) → Outcome Client → Type 0
Then P (ok d) = P d
Then P (error _) = Unit
Then P panic = Unit

still_after :
    (m stack : ℕ) (serials : List ℕ) (digest : String) (c : Client) (i : ℕ)
    → Managed i digest c
    → Then (Managed i digest) (link_layers m stack serials c)
unfolding link_layers
still_after m stack [] digest c i h = h
still_after m stack (_ ∷ serials) digest c i h = elim (Option-cases (hash_at c.managers m stack)) [
  | inl p ↦ rw (link_layers, p) tt
  | inr (other, p) ↦
      rw (link_layers, p)
        (still_after m (stack + 1) serials digest (link_layer m stack other c) i
          (Managed-still m stack other digest c i h))
]

pub managers_after :
    (m stack : ℕ) (serials : List ℕ) (c : Client)
    → Then (λ d. d.managers ≡ c.managers) (link_layers m stack serials c)
unfolding link_layers link_layer
managers_after m stack [] c = refl
managers_after m stack (_ ∷ serials) c = elim (Option-cases (hash_at c.managers m stack)) [
  | inl p ↦ rw (link_layers, p) tt
  | inr (other, p) ↦
      rw (link_layers, p) (managers_after m (stack + 1) serials (link_layer m stack other c))
]

pub linked_all :
    (m stack j : ℕ) (serials : List ℕ) (digest : String) (c : Client)
    → j < length serials
    → hash_at c.managers m (stack + j) ≡ some digest
    → Then (Managed (owner_in m digest c) digest) (link_layers m stack serials c)
unfolding link_layers link_layer
linked_all m stack j [] digest c l e = absurd (omega arith)
linked_all m stack zero (_ ∷ serials) digest c l e =
    let p : hash_at c.managers m stack ≡ some digest =
      ap (hash_at c.managers m) (omega arith) ∙ e in
    rw (link_layers, p)
      (still_after m (stack + 1) serials digest (link_layer m stack digest c) (owner_in m digest c)
        (Managed-now m stack digest c))
linked_all m stack (suc j) (_ ∷ serials) digest c l e =
    elim (Option-cases (hash_at c.managers m stack)) [
      | inl p ↦ rw (link_layers, p) tt
      | inr (other, p) ↦
          rw (link_layers, p)
            (subst
              (λ k.
                Then (Managed k digest)
                  (link_layers m (stack + 1) serials (link_layer m stack other c)))
              (owner-link_layer m stack other digest c)
              (linked_all m (stack + 1) j serials digest (link_layer m stack other c)
                (omega (arith, l)) (ap (hash_at c.managers m) (omega arith) ∙ e)))
    ]
