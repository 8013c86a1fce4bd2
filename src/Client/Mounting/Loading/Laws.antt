-- ===== src/Client/Mounting/Loading/Laws.antt =====
-- Loading an image keeps what the layer map refers to (client/client.go, client/manager.go).
use starlight.Prelude.{
  ℕ, ◌+◌, String, ◌≡◌, refl, inl, inr, true, Option, none, some, List, [], ◌∷◌, nat_comparable,
  text_comparable, Bool-cases, Option-cases, length, lookup, Outcome, ok, error, panic, Bool, false,
}
use starlight.Client.Mounting.{Client, System, ContentStore, hash_at, link_layer, link_layers}
use starlight.Client.Mounting.Loading.{
  set_tracer, has_tracer, set_optimizer_on, add_manager, load_header, optimized, after_optimizer,
  load_new, load_bundle, load_image,
}
use starlight.Client.Mounting.Serving.{Sound, Serves-modify, Serves-append, Sound-link_layer}
use starlight.Client.Setup.{Bundle, init}
use starlight.Client.Extract.{Manager}

pub Sound-set_optimizer_on :
    (sys : System) (group : String) (m : ℕ) (c : Client)
    → Sound c
    → Sound (set_optimizer_on sys group m c).0
unfolding set_optimizer_on set_tracer
Sound-set_optimizer_on sys group m c h = elim (Bool-cases (has_tracer c.managers m)) [
  | inl p ↦ rw (set_optimizer_on, p) h
  | inr p ↦ elim (Option-cases (sys.new_tracer group)) [
    | inl q ↦
        rw (set_optimizer_on, p, q)
          (Serves-modify c.layer_map c.managers c.instances (set_tracer (some group)) (λ x. refl) m
            h)
    | inr (e, q) ↦ rw (set_optimizer_on, p, q) h
  ]
]

pub Sound-add_manager :
    (manifest : String) (image : Manager) (c : Client)
    → Sound c
    → Sound (add_manager manifest image c)
unfolding add_manager
Sound-add_manager manifest image c h =
    Serves-append c.layer_map c.managers c.instances
      (record { manifest_digest = manifest; image = image; tracer = none; fs = [] } ∷ []) h

abbrev SoundOr : Outcome Client → Type 0
SoundOr (ok d) = Sound d
SoundOr (error _) = Unit
SoundOr panic = Unit

Sound-link_layers :
    (m stack : ℕ) (serials : List ℕ) (c : Client)
    → Sound c
    → SoundOr (link_layers m stack serials c)
unfolding link_layers
Sound-link_layers m stack [] c h = h
Sound-link_layers m stack (_ ∷ serials) c h = elim (Option-cases (hash_at c.managers m stack)) [
  | inl p ↦ rw (link_layers, p) tt
  | inr (digest, p) ↦
      rw (link_layers, p)
        (Sound-link_layers m (stack + 1) serials (link_layer m stack digest c)
          (Sound-link_layer m stack digest c p h))
]

Sound-optimized :
    (sys : System) (m : ℕ) (on : Bool) (c : Client) → Sound c → Sound (optimized sys m on c).0
unfolding optimized
Sound-optimized sys m true c h = Sound-set_optimizer_on sys c.default_optimize_group m c h
Sound-optimized sys m false c h = h

Sound-after_optimizer :
    (m : ℕ) (serials : List ℕ) (r : Client × Option String)
    → Sound r.0
    → Sound (after_optimizer m serials r).0
unfolding after_optimizer
Sound-after_optimizer m serials (c, some err) h = h
Sound-after_optimizer m serials (c, none) h =
    cases (link_layers m 0 serials c) refl (Sound-link_layers m 0 serials c h)
  where
    cases :
        (r : Outcome Client)
        → link_layers m 0 serials c ≡ r
        → SoundOr r
        → Sound (after_optimizer m serials (c, none)).0
    cases (ok d) p k = rw (after_optimizer, p) k
    cases (error e) p k = rw (after_optimizer, p) h
    cases panic p k = rw (after_optimizer, p) h

Sound-load_new :
    (sys : System) (manifest : String) (image : Manager) (c : Client)
    → Sound c
    → Sound (load_new sys manifest image c).0
unfolding load_new
Sound-load_new sys manifest image c h =
    Sound-after_optimizer (length c.managers) image.stack_serial_map
      (optimized sys (length c.managers) c.default_optimizer (add_manager manifest image c))
      (Sound-optimized sys (length c.managers) c.default_optimizer (add_manager manifest image c)
        (Sound-add_manager manifest image c h))

Sound-load_bundle :
    (sys : System) (root manifest : String) (r : Outcome Bundle) (c : Client)
    → Sound c
    → Sound (load_bundle sys root manifest r c).0
unfolding load_bundle
Sound-load_bundle sys root manifest (error e) c h = h
Sound-load_bundle sys root manifest panic c h = h
Sound-load_bundle sys root manifest (ok bundle) c h = elim (Option-cases (init root true bundle)) [
  | inl q ↦ rw (load_bundle, q) h
  | inr (image, q) ↦ rw (load_bundle, q) (Sound-load_new sys manifest image.0 c h)
]

pub Sound-load_image :
    (sys : System) (store : ContentStore) (root manifest : String) (c : Client)
    → Sound c
    → Sound (load_image sys store root manifest c).0
unfolding load_image
Sound-load_image sys store root manifest c h = elim (Option-cases (lookup manifest c.manager_map)) [
  | inr (m, p) ↦ rw (load_image, p) h
  | inl p ↦
      rw (load_image, p) (Sound-load_bundle sys root manifest (load_header store manifest) c h)
]
