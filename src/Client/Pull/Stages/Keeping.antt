-- ===== src/Client/Pull/Stages/Keeping.antt =====
-- What the actions of a pull keep of the lock and of the map of managers (`PullImage` of
-- client/client.go).
use starlight.Prelude.{
  ℕ, ◌^◌, String, ◌≡◌, refl, ap, ◌∙◌, inl, inr, true, false, Option, none, some, List, leb,
  nat_comparable, text_comparable, ==_self, if◌then◌else◌, Bool-cases, Option-cases, length, lookup,
  remove, lookup-remove, Outcome, ok, error, panic, lookup-insert_self,
}
use starlight.Client.Pull.{
  ◌>>=◌, Metadata, World, Outside, Stop, go, stop, quit, crash, Act, bound, try, try_only,
  read_body, write_blob, pass, release,
}
use starlight.Client.Pull.Stages.{Setting, receive, drop_cached, add_star}
use starlight.Client.Extract.{Manager}
use starlight.Client.Mounting.Pulling.{register}
use starlight.Client.Mounting.Loading.{add_manager}
use starlight.Client.Setup.{Bundle, init}

-- An action that keeps what is known of the world, whatever it comes to.
pub record Keeps (P : World → Type 0) {A : Type 0} (m : Act A) : Type 0 where
  pub run : (w : World) → P w → P (m w).0

module _ (P : World → Type 0) {A B : Type 0} where
  pub bound-Keeps :
      (f : A → Act B) → ((a : A) → Keeps P (f a)) → (r : World × Stop A) → P r.0 → P (bound f r).0
  bound-Keeps f k (w, go a) p = (k a).run w p
  bound-Keeps f k (w, stop m) p = p
  bound-Keeps f k (w, quit) p = p
  bound-Keeps f k (w, crash) p = p

  pub then-Keeps :
      {m : Act A} {f : A → Act B} → Keeps P m → ((a : A) → Keeps P (f a)) → Keeps P (m >>= f)
  then-Keeps {m = m} {f = f} h k = record { run = λ w p. bound-Keeps f k (m w) (h.run w p) }

-- The lock and the map of managers at one digest: before the manager is made, and after.
abbrev pub Locked : ℕ → String → World → Type 0
Locked n digest w = (w.held ≡ true) × (w.faults ≡ n) × (lookup digest w.client.manager_map ≡ none)

abbrev pub Given : ℕ → String → World → Type 0
Given n digest w =
    (w.held ≡ false) × (w.faults ≡ n) × (m : ℕ) × (lookup digest w.client.manager_map ≡ some m)

abbrev pub Free : ℕ → World → Type 0
Free n w = (w.held ≡ false) × (w.faults ≡ n)

-- The small actions, which change none of this.
module _ (P : World → Type 0) where
  pub pass-Keeps : {A : Type 0} (a : A) → Keeps P (pass a)
  pass-Keeps a = record { run = λ w p. p }

  pub try-Keeps : {A : Type 0} (base : String) (o : Outcome A) → Keeps P (try base o)
  try-Keeps base (ok a) = record { run = λ w p. p }
  try-Keeps base (error e) = record { run = λ w p. p }
  try-Keeps base panic = record { run = λ w p. p }

  pub try_only-Keeps : (base : String) (o : Option String) → Keeps P (try_only base o)
  try_only-Keeps base none = record { run = λ w p. p }
  try_only-Keeps base (some e) = record { run = λ w p. p }

module _ (n : ℕ) (digest : String) where
  read_body_run :
      (base : String) (s : ℕ) (w : World)
      → Locked n digest w
      → Locked n digest (read_body base s w).0
  unfolding read_body
  read_body_run base s w p = elim (Bool-cases (leb (2 ^ 63) s)) [
    | inl a ↦ rw a p
    | inr a ↦ elim (Bool-cases (leb s (length w.body))) [
      | inl b ↦ rw (a, b) p
      | inr b ↦ rw (a, b) p
    ]
  ]

  write_blob_run :
      (out : Outside) (base d : String) (bytes : List ℕ) (w : World)
      → Locked n digest w
      → Locked n digest (write_blob out base d bytes w).0
  unfolding write_blob
  write_blob_run out base d bytes w p = elim (Option-cases (out.write_blob d)) [
    | inl a ↦ rw (write_blob, a) p
    | inr (e, a) ↦ rw (write_blob, a) p
  ]

  pub receive-Keeps :
      (set : Setting) (out : Outside) (base : String) (res : Metadata)
      → Keeps (Locked n digest) (receive set out base res)
  unfolding receive
  receive-Keeps set out base res =
      let Q = Locked n digest in
      let reads : (s : ℕ) → Keeps Q (read_body base s) =
        λ s. record { run = read_body_run base s } in
      let writes : (d : String) (bytes : List ℕ) → Keeps Q (write_blob out base d bytes) =
        λ d bytes. record { run = write_blob_run out base d bytes } in
      then-Keeps Q (reads res.manifest_size) (λ buf.
        then-Keeps Q (try-Keeps Q base (out.read_manifest buf)) (λ man.
          then-Keeps Q (writes res.digest man.2) (λ _. then-Keeps Q (reads res.config_size) (λ buf.
            then-Keeps Q (try-Keeps Q base (out.read_config buf)) (λ con.
              then-Keeps Q (writes man.0 con.1) (λ _.
                then-Keeps Q (reads res.starlight_header_size) (λ buf.
                  then-Keeps Q (try-Keeps Q base (out.read_header buf)) (λ star.
                    then-Keeps Q (writes res.starlight_digest star.1) (λ _.
                      then-Keeps Q (try_only-Keeps Q base out.create_image)
                        (λ _. pass-Keeps Q _))))))))))

  -- Removing the cached manager makes the map miss the digest.
  pub drop-Locked :
      (set : Setting) (out : Outside) (w : World)
      → w.held ≡ true
      → w.faults ≡ n
      → Locked n digest (drop_cached set out digest w).0
  unfolding drop_cached
  drop-Locked set out w h f = (
    h,
    f,
    lookup-remove digest digest w.client.manager_map
        ∙ ap (λ b. if b then none else lookup digest w.client.manager_map) (==_self digest),
  )

  -- The manager is there once it has been made, and the lock is free again.
  unfoldable pub AddStar : World × Stop Manager → Type 0
  AddStar (w, go _) = Given n digest w
  AddStar (w, stop _) = Locked n digest w
  AddStar (w, quit) = Locked n digest w
  AddStar (w, crash) = Locked n digest w

  pub AddStar-add_star :
      (set : Setting) (out : Outside) (star : Bundle) (w : World)
      → Locked n digest w
      → AddStar (add_star set out digest star w)
  unfolding add_star AddStar release register add_manager
  AddStar-add_star set out star w p = elim (Option-cases (init set.root false star)) [
    | inl a ↦ rw (add_star, a) p
    | inr (image, a) ↦
        rw (add_star, a, release, p.0)
          (
            refl,
            p.1,
            length w.client.managers,
            lookup-insert_self digest (length w.client.managers)
                (remove digest w.client.manager_map),
          )
  ]
