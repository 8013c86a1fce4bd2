-- ===== src/Client/Pull/Stages/Whole.antt =====
-- A whole pull, and the daemon's answer to who asked for it (`PullImage` of client/client.go and of
-- client/grpc.go).
use starlight.Prelude.{
  ℕ, ◌-◌, ◌^◌, String, Bool, true, false, Option, none, some, List, [], ◌∷◌, nat_comparable,
  text_comparable, if◌then◌else◌, length, lookup,
}
use starlight.Client.Setup.{Bundle}
use starlight.Client.Extract.{Manager}
use starlight.Client.Mounting.Pulling.{create_snapshots}
use starlight.Client.Pull.{
  Metadata, Message, World, Outside, Stop, go, stop, quit, crash, Act, bound, ◌>>=◌, ◌>>◌, release,
  send, with_client,
}
use starlight.Client.Pull.Stages.{
  Setting, check_local, ask_proxy, drop_cached, receive, add_star, optimize, prepare, announce,
  unpack, mark, update,
}

module _ (set : Setting) (out : Outside) where
  unfoldable pub before : Act Metadata
  unfolding check_local ask_proxy
  before = do check_local set out; ask_proxy set out

  unfoldable pub fetched : String → Metadata → Act (ℕ × List String × Bundle)
  unfolding drop_cached receive
  fetched base res = do drop_cached set out res.digest; receive set out base res

  -- The image is ready before its content is: what stops from here on does so after the first signal.
  unfoldable pub deliver : String → ℕ → Manager → Message → Act (Unit {0})
  unfolding announce unpack mark update
  deliver base m image note = do
    announce set out note
    unpack set out base m image
    mark set out out.update_image
    update set out out.update_manifest
    announce set out note

  unfoldable pub install : String → ℕ → Metadata → List String → Manager → Act (Unit {0})
  unfolding optimize prepare deliver
  install base m res chains image = do
    optimize set out base m
    image ← prepare set out base m image
    with_client base (create_snapshots set.add m res.digest chains)
    deliver base m image (record { img = true; meta = some res; base = base; err = none })

  -- The manager that `add_star` makes is the one that follows those that are there.
  unfoldable pub installed : String → Metadata → ℕ × List String × Bundle → Act (Unit {0})
  unfolding add_star install
  installed base res (original, chains, star) w =
      let m = length w.client.managers in
      bound (install base m (record res { original_length = original }) chains)
        (add_star set out res.digest star w)

  -- A return after a message sends it.
  unfoldable pub report : World × Stop (Unit {0}) → World × Stop (Unit {0})
  report (w, stop m) = (send m w, stop m)
  report (w, go a) = (w, go a)
  report (w, quit) = (w, quit)
  report (w, crash) = (w, crash)

  -- The deferred function unlocks if the manager map does not have the image.
  unfoldable pub deferred : String → World × Stop (Unit {0}) → World × Stop (Unit {0})
  deferred digest (w, r) = elim (lookup digest w.client.manager_map) [
    | none ↦ (release w, r)
    | some _ ↦ (w, r)
  ]

  unfoldable pub worked : String → Metadata → World → World × Stop (Unit {0})
  unfolding fetched installed report
  worked base res w =
      report (bound (installed base res) (fetched base res (record w { held = true })))

  -- Once the pull has let the mutex go, others come.
  unfoldable pub overlapped : World × Stop (Unit {0}) → World × Stop (Unit {0})
  overlapped (w, r) =
      let (c, taken) = set.others w.client in
      if w.held then (w, r) else (record w { client = c; held = taken }, r)

  -- From the lock on; a lock that is not obtained has nothing deferred.
  unfoldable pub locked : String → Metadata → World → World × Stop (Unit {0})
  unfolding worked overlapped deferred
  locked base res w = elim w.held [
    | true ↦ (w, crash)
    | false ↦ deferred res.digest (overlapped (worked base res w))
  ]

  unfoldable pub pull_from : String → World × Stop Metadata → World × Stop (Unit {0})
  unfolding locked report
  pull_from base (w, go res) = locked base res w
  pull_from base (w, stop m) = report (w, stop m)
  pull_from base (w, quit) = (w, quit)
  pull_from base (w, crash) = (w, crash)

  -- `base` is the reference of the base image with its digest, or empty.
  unfoldable pub pull_image : String → World → World × Stop (Unit {0})
  unfolding before pull_from
  pull_image base w = pull_from base (before w)

-- ImagePullResponse: success, message, base image, and the sizes.
pub record Response : Type 0 where
  pub success : Bool
  pub text : String
  pub base_image : String
  pub total_image_size : ℕ
  pub original_image_size : ℕ

-- -1 in the total size of an image that was not transferred.
unfoldable pub refused : Bool → Message → String → Response
refused success ret e = record {
  success = success;
  text = e;
  base_image = ret.base;
  total_image_size = 2 ^ 64 - 1;
  original_image_size = 0;
}

unfoldable pub accepted : Message → Metadata → Response
accepted ret meta = record {
  success = true;
  text = "ok";
  base_image = ret.base;
  total_image_size = meta.content_length;
  original_image_size = meta.original_length;
}

-- What comes of the daemon's call: an answer, a wait that does not end, or a nil pointer.
pub data Reply : Type 0 where
  answers : Response → Reply
  waits : Reply
  nil_pointer : Reply

unfoldable pub accept : Message → Option Metadata → Reply
unfolding accepted
accept ret none = nil_pointer
accept ret (some meta) = answers (accepted ret meta)

-- The second signal.
unfoldable pub second : Message → List Message → Reply
unfolding refused accept
second ret [] = waits
second ret (again ∷ _) = elim again.err [
  | none ↦ accept ret ret.meta
  | some e ↦ answers (refused false again e)
]

-- The daemon waits for the first message, and for another if the content is waited for.
unfoldable pub pull_response : Bool → List Message → Reply
unfolding refused accept second
pull_response disable_early_start [] = waits
pull_response disable_early_start (ret ∷ rest) = elim ret.err [
  | some e ↦ answers (refused ret.img ret e)
  | none ↦ if disable_early_start then second ret rest else accept ret ret.meta
]
