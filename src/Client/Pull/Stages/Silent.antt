-- ===== src/Client/Pull/Stages/Silent.antt =====
-- The actions of a pull that send no message (`PullImage` of client/client.go).
use starlight.Prelude.{
  ℕ, ◌^◌, String, ◌≡◌, refl, sym, subst, inl, inr, false, Option, none, some, List, [], leb,
  nat_comparable, text_comparable, if◌then◌else◌, Bool-cases, Option-cases, length, Map, lookup,
  Outcome, ok, error, panic,
}
use starlight.Client.Setup.{Bundle, init, prepare_directories}
use starlight.Client.Extract.{Manager}
use starlight.Client.Mounting.{Client}
use starlight.Client.Mounting.Loading.{set_optimizer_on, load_image}
use starlight.Client.Pull.{
  Metadata, World, Outside, Stop, go, stop, quit, crash, Act, bound, ◌>>=◌, pass, try, try_only,
  release, read_body, write_blob, with_client, with_client_only, failure, text_of,
}
use starlight.Client.Pull.Stages.{
  Setting, already, load_complete, check_found, check_local, connected, ask_proxy, drop_cached,
  receive, add_star, optimize, prepare, has_layer,
}
use starlight.Client.Pull.Stages.Whole.{before, fetched}

-- An action that sends nothing: what it stops with is an error.
abbrev pub Silent : {A : Type 0} → World × Stop A → Type 0
Silent (w, go a) = w.sent ≡ []
Silent (w, stop m) = (w.sent ≡ []) × (e : String) × (m.err ≡ some e)
Silent (w, quit) = ⊥
Silent (w, crash) = Unit

pub record Quiet {A : Type 0} (m : Act A) : Type 0 where
  pub run : (w : World) → w.sent ≡ [] → Silent (m w)

module _ {A B : Type 0} where
  Silent-bound :
      (f : A → Act B)
      → ((a : A) → Quiet (f a))
      → (r : World × Stop A) → Silent r
      → Silent (bound f r)
  Silent-bound f k (w, go a) h = (k a).run w h
  Silent-bound f k (w, stop m) h = h
  Silent-bound f k (w, quit) h = h
  Silent-bound f k (w, crash) h = h

  then-Quiet : {m : Act A} {f : A → Act B} → Quiet m → ((a : A) → Quiet (f a)) → Quiet (m >>= f)
  then-Quiet {m = m} {f = f} h k = record { run = λ w p. Silent-bound f k (m w) (h.run w p) }

pass-Quiet : {A : Type 0} (a : A) → Quiet (pass a)
pass-Quiet a = record { run = λ w p. p }

try-Quiet : {A : Type 0} (base : String) (o : Outcome A) → Quiet (try base o)
unfolding failure
try-Quiet base (ok a) = record { run = λ w p. p }
try-Quiet base (error e) = record { run = λ w p. (p, text_of e, refl) }
try-Quiet base panic = record { run = λ w p. tt }

try_only-Quiet : (base : String) (o : Option String) → Quiet (try_only base o)
unfolding failure
try_only-Quiet base none = record { run = λ w p. p }
try_only-Quiet base (some e) = record { run = λ w p. (p, e, refl) }

read_body-Quiet : (base : String) (s : ℕ) → Quiet (read_body base s)
unfolding read_body failure
read_body-Quiet base s = record {
  run = λ w p. elim (Bool-cases (leb (2 ^ 63) s)) [
    | inl a ↦ rw (read_body, a) tt
    | inr a ↦ elim (Bool-cases (leb s (length w.body))) [
      | inl b ↦ rw (read_body, a, b) p
      | inr b ↦ rw (read_body, a, b) (p, "EOF", refl)
    ]
  ];
}

write_blob-Quiet :
    (out : Outside) (base d : String) (bytes : List ℕ) → Quiet (write_blob out base d bytes)
unfolding write_blob failure
write_blob-Quiet out base d bytes = record {
  run = λ w p. elim (Option-cases (out.write_blob d)) [
    | inl a ↦ rw (write_blob, a) p
    | inr (e, a) ↦ rw (write_blob, a) (p, e, refl)
  ];
}

pub with_client-Quiet :
    {A : Type 0} (base : String) (f : Client → Client × Outcome A) → Quiet (with_client base f)
unfolding with_client
with_client-Quiet base f = record {
  run = λ w p. (try-Quiet base (f w.client).1).run (record w { client = (f w.client).0 }) p;
}

with_client_only-Quiet :
    (base : String) (f : Client → Client × Option String) → Quiet (with_client_only base f)
unfolding with_client_only
with_client_only-Quiet base f = record {
  run = λ w p. (try_only-Quiet base (f w.client).1).run (record w { client = (f w.client).0 }) p;
}

module _ (set : Setting) (out : Outside) where
  check_found-Quiet : (o : Option (String × Map String String)) → Quiet (check_found set out o)
  unfolding check_found load_complete already
  check_found-Quiet none = record { run = λ w p. p }
  check_found-Quiet (some (digest, labels)) =
      elim (Option-cases (lookup "complete.starlight.mc256.dev" labels)) [
        | inl a ↦ rw (check_found, a) (try_only-Quiet "" out.delete_image)
        | inr (l, a) ↦
            rw (check_found, a)
              (then-Quiet (with_client-Quiet "" (load_image set.sys set.store set.root digest))
                (λ _. already-Quiet))
      ]
    where
      already-Quiet : Quiet (already set out)
      already-Quiet = record { run = λ w p. (p, "requested image already exists", refl) }

  ask_proxy-Quiet : Quiet (ask_proxy set out)
  unfolding ask_proxy connected
  ask_proxy-Quiet = then-Quiet (try-Quiet "" out.delta_image) connected-Quiet
    where
      connected-Quiet : (answer : Metadata × List ℕ) → Quiet (connected set out answer)
      connected-Quiet answer = record { run = λ w p. p }

  pub before-Quiet : Quiet (before set out)
  unfolding before check_local
  before-Quiet =
      then-Quiet (then-Quiet (try-Quiet "" out.find_image) check_found-Quiet) (λ _. ask_proxy-Quiet)

  receive-Quiet : (base : String) (res : Metadata) → Quiet (receive set out base res)
  unfolding receive
  receive-Quiet base res = then-Quiet (read_body-Quiet base res.manifest_size) (λ buf.
      then-Quiet (try-Quiet base (out.read_manifest buf)) (λ man.
        then-Quiet (write_blob-Quiet out base res.digest man.2) (λ _.
          then-Quiet (read_body-Quiet base res.config_size) (λ buf.
            then-Quiet (try-Quiet base (out.read_config buf)) (λ con.
              then-Quiet (write_blob-Quiet out base man.0 con.1) (λ _.
                then-Quiet (read_body-Quiet base res.starlight_header_size) (λ buf.
                  then-Quiet (try-Quiet base (out.read_header buf)) (λ star.
                    then-Quiet (write_blob-Quiet out base res.starlight_digest star.1) (λ _.
                      then-Quiet (try_only-Quiet base out.create_image) (λ _. pass-Quiet _))))))))))

  drop_cached-Quiet : (digest : String) → Quiet (drop_cached set out digest)
  unfolding drop_cached
  drop_cached-Quiet digest = record { run = λ w p. p }

  pub fetched-Quiet : (base : String) (res : Metadata) → Quiet (fetched set out base res)
  unfolding fetched
  fetched-Quiet base res = then-Quiet (drop_cached-Quiet res.digest) (λ _. receive-Quiet base res)

  pub add_star-Quiet : (digest : String) (star : Bundle) → Quiet (add_star set out digest star)
  unfolding add_star release
  add_star-Quiet digest star = record {
    run = λ w p. elim (Option-cases (init set.root false star)) [
      | inl a ↦ rw (add_star, a) tt
      | inr (image, a) ↦ elim (Bool-cases w.held) [
        | inl b ↦ rw (add_star, a, release, b) p
        | inr b ↦ rw (add_star, a, release, b) p
      ]
    ];
  }

  pub optimize-Quiet : (base : String) (m : ℕ) → Quiet (optimize set out base m)
  unfolding optimize
  optimize-Quiet base m = record {
    run = λ w p. elim (Bool-cases w.client.default_optimizer) [
      | inl a ↦
          subst
            (λ b. Silent (
              if b
              then with_client_only base
                  (set_optimizer_on set.sys w.client.default_optimize_group m) w
              else (w, go tt)))
            (sym a)
            ((with_client_only-Quiet base
                (set_optimizer_on set.sys w.client.default_optimize_group m)).run
              w p)
      | inr a ↦
          subst
            (λ b. Silent (
              if b
              then with_client_only base
                  (set_optimizer_on set.sys w.client.default_optimize_group m) w
              else (w, go tt)))
            (sym a) p
    ];
  }

  pub prepare-Quiet :
      (base : String) (m : ℕ) (image : Manager) → Quiet (prepare set out base m image)
  unfolding prepare failure
  prepare-Quiet base m image = record {
    run = λ w p.
        elim (Option-cases (prepare_directories set.os (has_layer set out w.client) image)) [
          | inl a ↦ rw (prepare, a) (p, "failed to initialize directories", refl)
          | inr (image', a) ↦ rw (prepare, a) p
        ];
  }
