-- ===== src/Client/Mounting/Loading/Linked.antt =====
-- Every layer of an image that is loaded has a manager in the layer map (client/client.go).
use starlight.Prelude.{
  ℕ, zero, suc, ◌<◌, String, ◌≡◌, refl, ap, ◌∙◌, subst, ◌≢◌, inl, inr, false, Option, none, some,
  List, [], ◌∷◌, arith, nat_comparable, text_comparable, Bool-cases, Option-cases, length, lookup,
  Outcome, ok, error, panic, get_elem?, ◌++◌, sym, true, Bool, err_no_manager,
}
use starlight.Client.Mounting.{
  Client, hash_at, link_layers, hash_of, LoadedManager, System, ContentStore, Info,
}
use starlight.Client.Mounting.Loading.{
  set_optimizer_on, load_image, set_tracer, after_optimizer, load_new, load_bundle, has_tracer,
  add_manager, load_header, optimized,
}
use starlight.Client.Extract.{Manager}
use starlight.Client.Mounting.Filesystems.{mount}
use starlight.Client.Mounting.Filesystems.Mounts.{mount_managed}
use starlight.Client.Setup.{Bundle, init}
use starlight.Client.Mounting.Serving.{hash_at-modify}
use starlight.Client.Mounting.Loading.Owners.{
  Managed, owner, owner_in, Then, managers_after, linked_all,
}

-- The stacks that a manager has a layer at.
get_elem?-lt {ℓ} :
    {A : Type ℓ} (xs : List A) (i : ℕ) (a : A) → get_elem? xs i ≡ some a → i < length xs
get_elem?-lt [] i a h = cc
get_elem?-lt (x ∷ xs) zero a h = omega arith
get_elem?-lt (x ∷ xs) (suc i) a h = omega (arith, get_elem?-lt xs i a h)

hash_of-lt :
    (m : Manager) (stack : ℕ) (digest : String)
    → hash_of m stack ≡ some digest
    → stack < length m.stack_serial_map
unfolding hash_of
hash_of-lt m stack digest h = elim (Option-cases (get_elem? m.stack_serial_map stack)) [
  | inl p ↦ ground (arith, h, p)
  | inr (serial, p) ↦ get_elem?-lt m.stack_serial_map stack serial p
]

hash_at_new :
    (ms : List LoadedManager) (x : LoadedManager) (stack : ℕ)
    → hash_at (ms ++ x ∷ []) (length ms) stack ≡ hash_of x.image stack
unfolding hash_at
hash_at_new [] x stack = refl
hash_at_new (y ∷ ys) x stack = hash_at_new ys x stack

-- Turning the tracer on leaves the layers of the managers.
hash_at-set_optimizer_on :
    (sys : System) (group : String) (m i stack : ℕ) (c : Client)
    → hash_at (set_optimizer_on sys group m c).0.managers i stack ≡ hash_at c.managers i stack
unfolding set_optimizer_on set_tracer
hash_at-set_optimizer_on sys group m i stack c = elim (Bool-cases (has_tracer c.managers m)) [
  | inl p ↦ rw (set_optimizer_on, p) refl
  | inr p ↦ elim (Option-cases (sys.new_tracer group)) [
    | inl q ↦
        rw (set_optimizer_on, p, q)
          (hash_at-modify (set_tracer (some group)) (λ x. refl) c.managers m i stack)
    | inr (e, q) ↦ rw (set_optimizer_on, p, q) refl
  ]
]

hash_at-optimized :
    (sys : System) (m : ℕ) (on : Bool) (i stack : ℕ) (c : Client)
    → hash_at (optimized sys m on c).0.managers i stack ≡ hash_at c.managers i stack
unfolding optimized
hash_at-optimized sys m true i stack c =
    hash_at-set_optimizer_on sys c.default_optimize_group m i stack c
hash_at-optimized sys m false i stack c = refl

-- Turning the tracer on leaves the layer map.
layers-set_optimizer_on :
    (sys : System) (group : String) (m : ℕ) (c : Client)
    → (set_optimizer_on sys group m c).0.layer_map ≡ c.layer_map
unfolding set_optimizer_on
layers-set_optimizer_on sys group m c = elim (Bool-cases (has_tracer c.managers m)) [
  | inl p ↦ rw (set_optimizer_on, p) refl
  | inr p ↦ elim (Option-cases (sys.new_tracer group)) [
    | inl q ↦ rw (set_optimizer_on, p, q) refl
    | inr (e, q) ↦ rw (set_optimizer_on, p, q) refl
  ]
]

layers-optimized :
    (sys : System) (m : ℕ) (on : Bool) (c : Client)
    → (optimized sys m on c).0.layer_map ≡ c.layer_map
unfolding optimized
layers-optimized sys m true c = layers-set_optimizer_on sys c.default_optimize_group m c
layers-optimized sys m false c = refl

-- Each layer that the manager which is answered has at a stack is managed: by the manager that it had
-- in `c`, or by this one.
AllManaged : Client → Client × Outcome ℕ → Type 0
AllManaged c (d, ok m) =
    (m ≡ length c.managers)
    × ((stack : ℕ) (digest : String)
        → hash_at d.managers m stack ≡ some digest
        → Managed (owner_in m digest c) digest d)
AllManaged c (d, error _) = Unit
AllManaged c (d, panic) = Unit

AllManaged-after :
    (c : Client) (serials : List ℕ) (r : Client × Option String)
    (bound : (stack : ℕ) (digest : String)
      → hash_at r.0.managers (length c.managers) stack ≡ some digest
      → stack < length serials)
    (layers : r.0.layer_map ≡ c.layer_map)
    → AllManaged c (after_optimizer (length c.managers) serials r)
unfolding after_optimizer AllManaged
AllManaged-after b serials (c, some err) bound layers = tt
AllManaged-after b serials (c, none) bound layers = cases (link_layers m 0 serials c) refl
  where
    m : ℕ
    m = length b.managers

    cases :
        (r : Outcome Client)
        → link_layers m 0 serials c ≡ r
        → AllManaged b (after_optimizer m serials (c, none))
    cases (ok d) p =
        rw (after_optimizer, p)
          (
            refl,
            λ stack digest h.
                let same : d.managers ≡ c.managers =
                  subst (Then (λ x. x.managers ≡ c.managers)) p (managers_after m 0 serials c) in
                let there : hash_at c.managers m stack ≡ some digest =
                  ap (λ ms. hash_at ms m stack) (sym same) ∙ h in
                subst (λ l. Managed (owner m (lookup digest l)) digest d) layers
                  (subst (Then (Managed (owner_in m digest c) digest)) p (
                    linked_all m 0 stack serials digest c (bound stack digest there)
                      (ap (hash_at c.managers m) (omega arith) ∙ there))),
          )
    cases (error e) p = rw (after_optimizer, p) tt
    cases panic p = rw (after_optimizer, p) tt

AllManaged-load_new :
    (sys : System) (manifest : String) (image : Manager) (c : Client)
    → AllManaged c (load_new sys manifest image c)
unfolding load_new add_manager
AllManaged-load_new sys manifest image c =
    let n = length c.managers in
    let d = add_manager manifest image c in
    AllManaged-after c image.stack_serial_map (optimized sys n c.default_optimizer d)
      (λ stack digest h. hash_of-lt image stack digest (
        sym (
          hash_at_new c.managers
            (record { manifest_digest = manifest; image = image; tracer = none; fs = [] }) stack)
        ∙ sym (hash_at-optimized sys n c.default_optimizer n stack d)
        ∙ h))
      (layers-optimized sys n c.default_optimizer d)

AllManaged-load_bundle :
    (sys : System) (root manifest : String) (r : Outcome Bundle) (c : Client)
    → AllManaged c (load_bundle sys root manifest r c)
unfolding load_bundle AllManaged
AllManaged-load_bundle sys root manifest (error e) c = tt
AllManaged-load_bundle sys root manifest panic c = tt
AllManaged-load_bundle sys root manifest (ok bundle) c =
    elim (Option-cases (init root true bundle)) [
      | inl q ↦ rw (load_bundle, q) tt
      | inr (image, q) ↦ rw (load_bundle, q) (AllManaged-load_new sys manifest image.0 c)
    ]

-- When an image that is not in memory is loaded, its manager is the one after those that there were,
-- and each layer that it has at some stack has an entry in the layer map with a manager: the one that
-- the layer's entry had before, if there was one, and else the new one. So no mount of such a layer, for
-- whatever snapshot, answers that there is no manager.
pub load_image-Managed :
    (sys : System) (store : ContentStore) (root manifest : String) (c d : Client) (m stack : ℕ)
    (digest : String)
    → lookup manifest c.manager_map ≡ none
    → load_image sys store root manifest c ≡ (d, ok m)
    → hash_at d.managers m stack ≡ some digest
    → (m ≡ length c.managers)
      × Managed (owner m (lookup digest c.layer_map)) digest d
      × ((ss_id : String) (sn : Info) → (mount sys root digest ss_id sn d).1 ≢ error err_no_manager)
unfolding load_image AllManaged
load_image-Managed sys store root manifest c d m stack digest absent loaded e =
    let bundle = load_header store manifest in
    let step : load_image sys store root manifest c ≡ load_bundle sys root manifest bundle c =
      rw (load_image, absent) refl in
    let (new, all) =
      subst (AllManaged c) (sym step ∙ loaded)
        (AllManaged-load_bundle sys root manifest bundle c) in
    let (mp, p, n) = all stack digest e in
    (
      new,
      (mp, p, n),
      λ ss_id sn.
          mount_managed sys root digest ss_id sn mp (owner m (lookup digest c.layer_map)) d p n,
    )
