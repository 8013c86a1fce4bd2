-- ===== src/Client/Pull/Stages/Released.antt =====
-- The mutex of the manager map is given back by every pull (`PullImage` of client/client.go).
use starlight.Prelude.{
  ℕ, String, ◌≡◌, refl, ◌∙◌, Bool, lookup-remove, ==_self, ◌⊎◌, inl, inr, true, false, Option, none,
  some, List, nat_comparable, text_comparable, Option-cases, length, Map, lookup,
}
use starlight.Client.Pull.{
  Metadata, World, Outside, Stop, go, stop, quit, crash, bound, release, send, with_client,
}
use starlight.Client.Pull.Stages.{
  Setting, drop_cached, add_star, check_found, load_complete, check_local, ask_proxy, already,
  connected,
}
use starlight.Client.Extract.{Manager}
use starlight.Client.Mounting.Pulling.{AddSnapshot}
use starlight.Client.Mounting.Loading.{load_image}
use starlight.Client.Setup.{Bundle}
use starlight.Client.Pull.Stages.Whole.{
  install, installed, deferred, report, locked, fetched, before, pull_image, pull_from, worked,
  overlapped,
}
use starlight.Client.Mounting.{Client}
use starlight.Client.Pull.Stages.Keeping.{
  Locked, AddStar, Free, Keeps, Given, AddStar-add_star, drop-Locked, try-Keeps, then-Keeps,
  try_only-Keeps, receive-Keeps,
}
use starlight.Client.Pull.Stages.Delivering.{install-Keeps}

-- Everything between the lock and the deferred function leaves, behind a panic or a return too, a free
-- lock with the manager in the map, or a locked one without.
abbrev Settled : ℕ → String → World × Stop (Unit {0}) → Type 0
Settled n digest r = Locked n digest r.0 ⊎ Given n digest r.0

-- A snapshot service which, when it calls the client back, leaves the image in memory.
abbrev pub Calls : AddSnapshot → String → Type 0
Calls add digest =
    (chain prev layer : String) (idx : ℕ) (c : Client) (i : ℕ)
    → lookup digest c.manager_map ≡ some i
    → (j : ℕ) × (lookup digest (add chain prev digest layer idx c).0.manager_map ≡ some j)

-- Other calls that leave the mutex free and the image in memory.
abbrev pub Leaves : (Client → Client × Bool) → String → Type 0
Leaves others digest =
    (c : Client) (i : ℕ)
    → lookup digest c.manager_map ≡ some i
    → ((others c).1 ≡ false) × (j : ℕ) × (lookup digest (others c).0.manager_map ≡ some j)

module _ (n : ℕ) (set : Setting) (out : Outside) (base : String) where
  Settled-added :
      (res : Metadata) (chains : List String) (m : ℕ) (calls : Calls set.add res.digest)
      (r : World × Stop Manager)
      → AddStar n res.digest r
      → Settled n res.digest (bound (install set out base m res chains) r)
  unfolding AddStar
  Settled-added res chains m calls (w, go image) h =
      inr ((install-Keeps n res.digest set out base m calls res chains image refl).run w h)
  Settled-added res chains m calls (w, stop _) h = inl h
  Settled-added res chains m calls (w, quit) h = inl h
  Settled-added res chains m calls (w, crash) h = inl h

  Settled-installed :
      (res : Metadata) (calls : Calls set.add res.digest)
      (r : World × Stop (ℕ × List String × Bundle))
      → Locked n res.digest r.0
      → Settled n res.digest (bound (installed set out base res) r)
  unfolding installed
  Settled-installed res calls (w, go (original, chains, star)) h =
      Settled-added (record res { original_length = original }) chains (length w.client.managers)
        calls (add_star set out res.digest star w) (AddStar-add_star n res.digest set out star w h)
  Settled-installed res calls (w, stop _) h = inl h
  Settled-installed res calls (w, quit) h = inl h
  Settled-installed res calls (w, crash) h = inl h

  Settled-report :
      (digest : String) (r : World × Stop (Unit {0}))
      → Settled n digest r
      → Settled n digest (report set out r)
  unfolding report send
  Settled-report digest (w, stop m) h = h
  Settled-report digest (w, go a) h = h
  Settled-report digest (w, quit) h = h
  Settled-report digest (w, crash) h = h

  Free-deferred :
      (digest : String) (r : World × Stop (Unit {0}))
      → Settled n digest r
      → Free n (deferred set out digest r).0
  unfolding deferred release
  Free-deferred digest (w, r) (inl p) = rw (deferred, p.2, release, p.0) (refl, p.1)
  Free-deferred digest (w, r) (inr p) = rw (deferred, p.3) (p.0, p.1)

  Settled-worked :
      (res : Metadata) (calls : Calls set.add res.digest) (w : World)
      → Free n w
      → Settled n res.digest (worked set out base res w)
  unfolding worked fetched
  Settled-worked res calls w h =
      let start = drop-Locked n res.digest set out (record w { held = true }) refl h.1 in
      let r = fetched set out base res (record w { held = true }) in
      Settled-report res.digest (bound (installed set out base res) r) (
        Settled-installed res calls r (
          (receive-Keeps n res.digest set out base res).run
            (drop_cached set out res.digest (record w { held = true })).0 start))

  Settled-overlapped :
      (digest : String) (leave : Leaves set.others digest) (r : World × Stop (Unit {0}))
      → Settled n digest r
      → Settled n digest (overlapped set out r)
  unfolding overlapped
  Settled-overlapped digest leave (w, r) (inl p) = rw p.0 (inl (refl, p.1, p.2))
  Settled-overlapped digest leave (w, r) (inr p) =
      let q = leave w.client p.2 p.3 in rw p.0 (inr (q.0, p.1, q.1, q.2))

  Free-locked :
      (res : Metadata) (calls : Calls set.add res.digest) (leave : Leaves set.others res.digest)
      (w : World)
      → Free n w
      → Free n (locked set out base res w).0
  unfolding locked
  Free-locked res calls leave w h =
      rw (locked, h.0)
        (Free-deferred res.digest (overlapped set out (worked set out base res w)) (
          Settled-overlapped res.digest leave (worked set out base res w)
            (Settled-worked res calls w h)))

  loads-Keeps :
      (digest : String)
      → Keeps (Free n) (with_client "" (load_image set.sys set.store set.root digest))
  unfolding with_client
  loads-Keeps digest =
      let load = load_image set.sys set.store set.root digest in
      record {
        run = λ w p.
            (try-Keeps (Free n) "" (load w.client).1).run (record w { client = (load w.client).0 })
              p;
      }

  already-Keeps : Keeps (Free n) (already set out)
  unfolding already
  already-Keeps = record { run = λ w p. p }

  load_complete-Keeps : (digest : String) → Keeps (Free n) (load_complete set out digest)
  unfolding load_complete
  load_complete-Keeps digest = then-Keeps (Free n) (loads-Keeps digest) (λ _. already-Keeps)

  check_found-Keeps :
      (o : Option (String × Map String String)) → Keeps (Free n) (check_found set out o)
  unfolding check_found
  check_found-Keeps none = record { run = λ w p. p }
  check_found-Keeps (some (digest, labels)) =
      elim (Option-cases (lookup "complete.starlight.mc256.dev" labels)) [
        | inl a ↦ rw (check_found, a) (try_only-Keeps (Free n) "" out.delete_image)
        | inr (l, a) ↦ rw (check_found, a) (load_complete-Keeps digest)
      ]

  check_local-Keeps : Keeps (Free n) (check_local set out)
  unfolding check_local
  check_local-Keeps =
      then-Keeps (Free n) (try-Keeps (Free n) "" out.find_image) (λ o. check_found-Keeps o)

  connected-Keeps : (answer : Metadata × List ℕ) → Keeps (Free n) (connected set out answer)
  unfolding connected
  connected-Keeps answer = record { run = λ w p. p }

  ask_proxy-Keeps : Keeps (Free n) (ask_proxy set out)
  unfolding ask_proxy
  ask_proxy-Keeps =
      then-Keeps (Free n) (try-Keeps (Free n) "" out.delta_image) (λ answer. connected-Keeps answer)

  before-Keeps : Keeps (Free n) (before set out)
  unfolding before
  before-Keeps = then-Keeps (Free n) check_local-Keeps (λ _. ask_proxy-Keeps)

-- Whatever the registry, the proxy, containerd and the disk answer, and whether the pull succeeds, fails
-- at some stage or panics: if the mutex of the manager map was free when the pull began, the
-- snapshots' service leaves the image in memory when it calls the client back, and the other calls that
-- come after the pull has let the mutex go have left it free and the image in memory when the pull's
-- deferred function runs, then the mutex is free when the pull is over, and it was never unlocked
-- without being locked.
pub pull_image-Free :
    (set : Setting) (out : Outside) (base : String) (w : World)
    → w.held ≡ false
    → ((manifest : String) → Calls set.add manifest)
    → ((manifest : String) → Leaves set.others manifest)
    → ((pull_image set out base w).0.held ≡ false)
      × ((pull_image set out base w).0.faults ≡ w.faults)
unfolding pull_image pull_from report send
pull_image-Free set out base w h calls leave =
    rest (before set out w) ((before-Keeps w.faults set out base).run w (h, refl))
  where
    rest :
        (r : World × Stop Metadata) → Free w.faults r.0 → Free w.faults (pull_from set out base r).0
    rest (v, go res) f =
        Free-locked w.faults set out base res (calls res.digest) (leave res.digest) v f
    rest (v, stop m) f = f
    rest (v, quit) f = f
    rest (v, crash) f = f

-- Another pull of the same image, which has taken the mutex and removed the manager from the map.
unfoldable pub overtake : Setting → Outside → String → World → Client → Client × Bool
unfolding drop_cached
overtake set out digest other c =
    let w = (drop_cached set out digest (record other { client = c; held = true })).0 in
    (w.client, w.held)

-- If a pull has let the mutex go, and before its deferred function runs another pull of the same image
-- has taken the mutex and removed the image's manager from the map, then the deferred function unlocks
-- the mutex that the other pull holds, and no unlocking of a free mutex shows it.
pub locked_overtaken :
    (set again : Setting) (out out2 : Outside) (base : String) (res : Metadata) (w other : World)
    → w.held ≡ false
    → let set2 = record set { others = overtake again out2 res.digest other } in
      (worked set2 out base res w).0.held ≡ false
      → ((overlapped set2 out (worked set2 out base res w)).0.held ≡ true)
        × ((locked set2 out base res w).0.held ≡ false)
        × ((locked set2 out base res w).0.faults ≡ (worked set2 out base res w).0.faults)
unfolding locked overlapped deferred release overtake drop_cached
locked_overtaken set again out out2 base res w other h p =
    let set2 = record set { others = overtake again out2 res.digest other } in
    let r = worked set2 out base res w in
    let q = unlocked r p in (q.0, rw (locked, h) q.1, rw (locked, h) q.2)
  where
    gone :
        (v : World)
        → lookup res.digest (overtake again out2 res.digest other v.client).0.manager_map ≡ none
    gone v = lookup-remove res.digest res.digest v.client.manager_map ∙ rw (==_self res.digest) refl

    unlocked :
        (r : World × Stop (Unit {0}))
        → r.0.held ≡ false
        → let set2 = record set { others = overtake again out2 res.digest other } in
          let o = overlapped set2 out r in
          (o.0.held ≡ true)
          × ((deferred set2 out res.digest o).0.held ≡ false)
          × ((deferred set2 out res.digest o).0.faults ≡ r.0.faults)
    unlocked (v, r) q =
        rw (overlapped, q)
          (refl, rw (deferred, gone v, release) refl, rw (deferred, gone v, release) refl)
