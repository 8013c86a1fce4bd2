-- ===== src/Client/Pull/Stages/Delivering.antt =====
-- What a pull keeps once its manager is made (`PullImage` of client/client.go).
use starlight.Prelude.{
  ℕ, String, ◌≡◌, refl, sym, ap, ◌∙◌, subst, inl, inr, true, Option, none, some, List,
  nat_comparable, text_comparable, if◌then◌else◌, Bool-cases, Option-cases, lookup,
}
use starlight.Client.Pull.{
  Metadata, World, Outside, go, try_only, send, Message, with_client_only, with_client,
}
use starlight.Client.Pull.Stages.{
  Setting, announce, mark, update, extracted, unpack, optimize, write_image, prepare, has_layer,
}
use starlight.Client.Extract.{Manager, extract, Result, Ending, done, failed, panicked}
use starlight.Client.Mounting.Pulling.{create_snapshots, create_snapshots_mapped}
use starlight.Client.Mounting.Loading.{set_optimizer_on, has_tracer}
use starlight.Client.Setup.{prepare_directories}
use starlight.Client.Pull.Stages.Whole.{deliver, install}
use starlight.Client.Mounting.{Client}
use starlight.Client.Pull.Stages.Keeping.{Keeps, Given, then-Keeps, try_only-Keeps, try-Keeps}

module _ (n : ℕ) (digest : String) where
  module _ (set : Setting) (out : Outside) (base : String) (m : ℕ) where
    announce-Keeps : (note : Message) → Keeps (Given n digest) (announce set out note)
    unfolding announce send
    announce-Keeps note = record { run = λ w p. p }

    mark-Keeps : (o : Option String) → Keeps (Given n digest) (mark set out o)
    unfolding mark
    mark-Keeps none = record { run = λ w p. p }
    mark-Keeps (some _) = record { run = λ w p. p }

    update-Keeps : (o : Option String) → Keeps (Given n digest) (update set out o)
    unfolding update
    update-Keeps none = record { run = λ w p. p }
    update-Keeps (some _) = record { run = λ w p. p }

    extracted_run :
        (r : Result) (e : Ending) (w : World)
        → r.end ≡ e
        → Given n digest w
        → Given n digest (extracted set out base m r w).0
    unfolding extracted write_image
    extracted_run r done w q p = rw (extracted, q) p
    extracted_run r failed w q p = rw (extracted, q) p
    extracted_run r panicked w q p = rw (extracted, q) p

    unpack-Keeps : (image : Manager) → Keeps (Given n digest) (unpack set out base m image)
    unfolding unpack
    unpack-Keeps image = record {
      run = λ w p.
          let r = extract set.os set.gunzip image w.disk w.body in extracted_run r r.end w refl p;
    }

    deliver-Keeps :
        (image : Manager) (note : Message)
        → Keeps (Given n digest) (deliver set out base m image note)
    unfolding deliver
    deliver-Keeps image note =
        let G = Given n digest in
        then-Keeps G (announce-Keeps note) (λ _. then-Keeps G (unpack-Keeps image) (λ _.
          then-Keeps G (mark-Keeps out.update_image)
            (λ _. then-Keeps G (update-Keeps out.update_manifest) (λ _. announce-Keeps note))))

    map-set_optimizer_on :
        (group : String) (c : Client)
        → (set_optimizer_on set.sys group m c).0.manager_map ≡ c.manager_map
    unfolding set_optimizer_on
    map-set_optimizer_on group c = elim (Bool-cases (has_tracer c.managers m)) [
      | inl a ↦ rw (set_optimizer_on, a) refl
      | inr a ↦ elim (Option-cases (set.sys.new_tracer group)) [
        | inl b ↦ rw (set_optimizer_on, a, b) refl
        | inr (e, b) ↦ rw (set_optimizer_on, a, b) refl
      ]
    ]

    only_run :
        (c : Client) (o : Option String) (w : World)
        → c.manager_map ≡ w.client.manager_map
        → Given n digest w
        → Given n digest (try_only base o (record w { client = c })).0
    only_run c o w q p =
        (try_only-Keeps (Given n digest) base o).run (record w { client = c })
          (p.0, p.1, p.2, ap (lookup digest) q ∙ p.3)

    optimize-Keeps : Keeps (Given n digest) (optimize set out base m)
    unfolding optimize with_client_only
    optimize-Keeps = record {
      run = λ w p. elim (Bool-cases w.client.default_optimizer) [
        | inl a ↦
            subst
              (λ b.
                Given n digest
                  (if b
                    then with_client_only base
                        (set_optimizer_on set.sys w.client.default_optimize_group m) w
                    else (w, go tt)).0)
              (sym a)
              (only_run (set_optimizer_on set.sys w.client.default_optimize_group m w.client).0
                (set_optimizer_on set.sys w.client.default_optimize_group m w.client).1 w
                (map-set_optimizer_on w.client.default_optimize_group w.client) p)
        | inr a ↦
            subst
              (λ b.
                Given n digest
                  (if b
                    then with_client_only base
                        (set_optimizer_on set.sys w.client.default_optimize_group m) w
                    else (w, go tt)).0)
              (sym a) p
      ];
    }

    prepare-Keeps : (image : Manager) → Keeps (Given n digest) (prepare set out base m image)
    unfolding prepare write_image
    prepare-Keeps image = record {
      run = λ w p.
          elim (Option-cases (prepare_directories set.os (has_layer set out w.client) image)) [
            | inl a ↦ rw (prepare, a) p
            | inr (image', a) ↦ rw (prepare, a) p
          ];
    }

    module _
        (calls : (chain prev layer : String) (idx : ℕ) (c : Client) (i : ℕ)
          → lookup digest c.manager_map ≡ some i
          → (j : ℕ) × (lookup digest (set.add chain prev digest layer idx c).0.manager_map
              ≡ some j)) where
      create-Keeps :
          (chains : List String)
          → Keeps (Given n digest) (with_client base (create_snapshots set.add m digest chains))
      unfolding with_client
      create-Keeps chains = record {
        run = λ w p.
            let r = create_snapshots set.add m digest chains w.client in
            let q = create_snapshots_mapped set.add m digest calls chains w.client p.2 p.3 in
            (try-Keeps (Given n digest) base r.1).run (record w { client = r.0 })
              (p.0, p.1, q.0, q.1);
      }

      pub install-Keeps :
          (res : Metadata) (chains : List String) (image : Manager)
          → res.digest ≡ digest
          → Keeps (Given n digest) (install set out base m res chains image)
      unfolding install
      install-Keeps res chains image e =
          let G = Given n digest in
          then-Keeps G optimize-Keeps (λ _. then-Keeps G (prepare-Keeps image) (λ image'.
            then-Keeps G
              (subst (λ d. Keeps G (with_client base (create_snapshots set.add m d chains))) (sym e)
                (create-Keeps chains))
              (λ _.
                deliver-Keeps image'
                  (record { img = true; meta = some res; base = base; err = none }))))
