-- ===== src/Client/Pull/Stages/Sending.antt =====
-- The messages that a pull sends (`PullImage` of client/client.go).
use starlight.Prelude.{
  ℕ, String, ◌≡◌, refl, ap, ◌≢◌, ◌⊎◌, inl, inr, true, Option, none, some, List, [], ◌∷◌, ◌++◌,
  nat_comparable, text_comparable, Bool-cases, Option-cases, length, lookup,
}
use starlight.Client.Setup.{Bundle}
use starlight.Client.Extract.{Manager, Result, extract, Ending, done, failed, panicked}
use starlight.Client.Pull.{
  Metadata, Message, World, Outside, Stop, go, stop, quit, crash, Act, bound, ◌>>=◌, ◌>>◌, release,
  send, with_client, failure,
}
use starlight.Client.Pull.Stages.{
  Setting, add_star, optimize, prepare, write_image, announce, extracted, unpack, mark, update,
}
use starlight.Client.Pull.Stages.Whole.{
  before, fetched, deliver, install, report, deferred, installed, locked, worked, overlapped,
  pull_from, pull_image,
}
use starlight.Client.Mounting.Pulling.{create_snapshots}
use starlight.Client.Pull.Stages.Silent.{
  Silent, optimize-Quiet, add_star-Quiet, fetched-Quiet, before-Quiet, prepare-Quiet,
  with_client-Quiet,
}

-- The success that is announced.
abbrev pub Success : Message → Type 0
Success note = (note.err ≡ none) × (meta : Metadata) × (note.meta ≡ some meta)

-- Whether the image and its manifest are marked as complete.
abbrev pub Marked : Outside → Type 0
Marked out = (out.update_image ≡ none) × (out.update_manifest ≡ none)

abbrev pub Unmarked : Outside → Type 0
Unmarked out = (out.update_image ≢ none) ⊎ (out.update_manifest ≢ none)

abbrev pub not_extracted : String
not_extracted = "failed to extract starlight image"

module _ (out : Outside) where
  -- What has been sent when a pull is over, by how it ended, but for the message of a return.
  abbrev pub Sent : World × Stop (Unit {0}) → Type 0
  Sent (w, go _) = Marked out × (note : Message) × Success note × (w.sent ≡ note ∷ note ∷ [])
  Sent (w, quit) = Unmarked out × (note : Message) × Success note × (w.sent ≡ note ∷ [])
  Sent (w, crash) = Unit
  Sent (w, stop m) =
      (e : String) × (m.err ≡ some e)
      × ((w.sent ≡ [])
          ⊎ ((e ≡ not_extracted) × (note : Message) × Success note × (w.sent ≡ note ∷ [])))

  Sent-bound :
      {A : Type 0} (f : A → Act (Unit {0})) (r : World × Stop A)
      → Silent r
      → ((a : A) (w : World) → w.sent ≡ [] → Sent (f a w))
      → Sent (bound f r)
  Sent-bound f (w, go a) h k = k a w h
  Sent-bound f (w, stop m) (h, e, q) k = (e, q, inl h)
  Sent-bound f (w, quit) h k = absurd h
  Sent-bound f (w, crash) h k = tt

module _ (set : Setting) (out : Outside) (base : String) (m : ℕ) (note : Message)
    (good : Success note) where
  -- After the first signal: the manifest, the image, and the content.
  Sent-update :
      (o : Option String) (w : World)
      → out.update_image ≡ none
      → out.update_manifest ≡ o
      → w.sent ≡ note ∷ []
      → Sent out (bound (λ _. announce set out note) (update set out o w))
  unfolding update announce send
  Sent-update none w i q h = ((i, q), note, good, ap (λ l. l ++ note ∷ []) h)
  Sent-update (some e) w i q h = (inr (λ p. cc), note, good, h)

  Sent-mark :
      (o : Option String) (w : World)
      → out.update_image ≡ o
      → w.sent ≡ note ∷ []
      → Sent out (
          bound
            (λ _. update set out out.update_manifest >> announce set out note)
            (mark set out o w))
  unfolding mark
  Sent-mark none w q h = Sent-update out.update_manifest (record w { completed = true }) q refl h
  Sent-mark (some e) w q h = (inl (λ p. cc), note, good, h)

  Sent-extracted :
      (r : Result) (e : Ending) (w : World)
      → r.end ≡ e
      → w.sent ≡ note ∷ []
      → Sent out (
          bound
            (λ _.
              mark set out out.update_image
              >> (update set out out.update_manifest >> announce set out note))
            (extracted set out base m r w))
  unfolding extracted failure
  Sent-extracted r done w q h =
      rw (extracted, q)
        (Sent-mark out.update_image
          (record w {
            client = write_image set out m r.manager w.client;
            disk = r.disk;
            body = r.connection;
          })
          refl h)
  Sent-extracted r failed w q h = rw (extracted, q) (not_extracted, refl, inr (refl, note, good, h))
  Sent-extracted r panicked w q h = rw (extracted, q) tt

  Sent-deliver :
      (image : Manager) (w : World) → w.sent ≡ [] → Sent out (deliver set out base m image note w)
  unfolding deliver announce send unpack
  Sent-deliver image w h =
      let w' = record w { sent = w.sent ++ note ∷ [] } in
      let r = extract set.os set.gunzip image w.disk w.body in
      Sent-extracted r r.end w' refl (ap (λ l. l ++ note ∷ []) h)

module _ (set : Setting) (out : Outside) (base : String) where
  Sent-install :
      (m : ℕ) (res : Metadata) (chains : List String) (image : Manager) (w : World)
      → w.sent ≡ []
      → Sent out (install set out base m res chains image w)
  unfolding install
  Sent-install m res chains image w h =
      let note : Message = record { img = true; meta = some res; base = base; err = none } in
      let create : Act (Unit {0}) =
        with_client base (create_snapshots set.add m res.digest chains) in
      let last : Manager → Unit {0} → Act (Unit {0}) =
        λ image _. deliver set out base m image note in
      let created : Manager → Act (Unit {0}) = λ image. create >>= last image in
      let prepared : Unit {0} → Act (Unit {0}) = λ _. prepare set out base m image >>= created in
      Sent-bound out prepared (optimize set out base m w) ((optimize-Quiet set out base m).run w h)
        (λ _ w h.
          Sent-bound out created (prepare set out base m image w)
            ((prepare-Quiet set out base m image).run w h)
            (λ image w h.
              Sent-bound out (last image) (create w)
                ((with_client-Quiet base (create_snapshots set.add m res.digest chains)).run w h)
                (λ _ w h. Sent-deliver set out base m note (refl, res, refl) image w h)))

-- The messages of a pull that is over, by how it ended.
module _ (out : Outside) where
  abbrev pub Over : List Message → Stop (Unit {0}) → Type 0
  Over l (go _) = Marked out × (note : Message) × Success note × (l ≡ note ∷ note ∷ [])
  Over l quit = Unmarked out × (note : Message) × Success note × (l ≡ note ∷ [])
  Over l (stop m) =
      (e : String) × (m.err ≡ some e)
      × ((l ≡ m ∷ [])
          ⊎ ((e ≡ not_extracted) × (note : Message) × Success note × (l ≡ note ∷ m ∷ [])))
  Over l crash = Unit

module _ (set : Setting) (out : Outside) where
  Over-report :
      (r : World × Stop (Unit {0}))
      → Sent out r
      → Over out (report set out r).0.sent (report set out r).1
  unfolding report send
  Over-report (w, stop m) (e, q, inl h) = (e, q, inl (ap (λ l. l ++ m ∷ []) h))
  Over-report (w, stop m) (e, q, inr (x, note, good, h)) =
      (e, q, inr (x, note, good, ap (λ l. l ++ m ∷ []) h))
  Over-report (w, go a) h = h
  Over-report (w, quit) h = h
  Over-report (w, crash) h = tt

  Over-deferred :
      (digest : String) (r : World × Stop (Unit {0}))
      → Over out r.0.sent r.1
      → Over out (deferred set out digest r).0.sent (deferred set out digest r).1
  unfolding deferred release
  Over-deferred digest (w, r) h = elim (Option-cases (lookup digest w.client.manager_map)) [
    | inr (i, a) ↦ rw (deferred, a) h
    | inl a ↦ elim (Bool-cases w.held) [
      | inl b ↦ rw (deferred, a, release, b) h
      | inr b ↦ rw (deferred, a, release, b) h
    ]
  ]

  Sent-installed :
      (base : String) (res : Metadata) (x : ℕ × List String × Bundle) (w : World)
      → w.sent ≡ []
      → Sent out (installed set out base res x w)
  unfolding installed
  Sent-installed base res (original, chains, star) w h =
      let next =
        install set out base (length w.client.managers) (record res { original_length = original })
          chains in
      Sent-bound out next (add_star set out res.digest star w)
        ((add_star-Quiet set out res.digest star).run w h)
        (Sent-install set out base (length w.client.managers)
          (record res { original_length = original }) chains)

  Over-overlapped :
      (r : World × Stop (Unit {0}))
      → Over out r.0.sent r.1
      → Over out (overlapped set out r).0.sent (overlapped set out r).1
  unfolding overlapped
  Over-overlapped (w, r) h = elim (Bool-cases w.held) [
    | inl a ↦ rw (overlapped, a) h
    | inr a ↦ rw (overlapped, a) h
  ]

  Over-locked :
      (base : String) (res : Metadata) (w : World)
      → w.sent ≡ []
      → Over out (locked set out base res w).0.sent (locked set out base res w).1
  unfolding locked worked
  Over-locked base res w h = elim (Bool-cases w.held) [
    | inl a ↦ rw (locked, a) tt
    | inr a ↦
        rw (locked, a)
          (let r = fetched set out base res (record w { held = true }) in
            let s : Sent out (bound (installed set out base res) r) =
              Sent-bound out (installed set out base res) r
                ((fetched-Quiet set out base res).run (record w { held = true }) h)
                (Sent-installed base res) in
            Over-deferred res.digest (overlapped set out (worked set out base res w)) (
              Over-overlapped (worked set out base res w)
                (Over-report (bound (installed set out base res) r) s)))
  ]

  Over-pull_from :
      (base : String) (r : World × Stop Metadata)
      → Silent r
      → Over out (pull_from set out base r).0.sent (pull_from set out base r).1
  unfolding pull_from report send
  Over-pull_from base (w, go res) h = Over-locked base res w h
  Over-pull_from base (w, stop m) (h, e, q) = (e, q, inl (ap (λ l. l ++ m ∷ []) h))
  Over-pull_from base (w, quit) h = absurd h
  Over-pull_from base (w, crash) h = tt

  pub Over-pull_image :
      (base : String) (w : World)
      → w.sent ≡ []
      → Over out (pull_image set out base w).0.sent (pull_image set out base w).1
  unfolding pull_image
  Over-pull_image base w h = Over-pull_from base (before set out w) ((before-Quiet set out).run w h)
