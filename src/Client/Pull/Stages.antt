-- ===== src/Client/Pull/Stages.antt =====
-- The stages of a pull (`PullImage` of client/client.go).
pub mod Whole
pub mod Keeping
pub mod Delivering
pub mod Released
pub mod Silent
pub mod Sending
pub mod Signals
use mathlib.Core.Option
use starlight.Prelude.{
  ℕ, String, Bool, true, false, Option, none, some, List, [], ◌∷◌, nat_comparable, text_comparable,
  if◌then◌else◌, add64, modify, Map, lookup, remove,
}
use starlight.Client.Setup.{Bundle, init, prepare_directories}
use starlight.Client.Extract.{Manager, Os, extract, Result, done, failed, panicked}
use starlight.Client.Mounting.{Client, System, ContentStore}
use starlight.Client.Mounting.Loading.{set_optimizer_on, load_image}
use starlight.Client.Mounting.Pulling.{register, AddSnapshot}
use starlight.Client.Pull.{
  Metadata, Message, Outside, go, stop, quit, crash, Act, ◌>>=◌, ◌>>◌, pass, failure, try, try_only,
  release, send, read_body, write_blob, with_client, with_client_only,
}

-- What the client works with: the system, the store that images are loaded from, the operating system
-- and gzip, the snapshots' service, and the other calls of the client: what they make of the client
-- and of the free mutex between the moment the pull lets the mutex go and its deferred function.
pub record Setting : Type 0 where
  pub sys : System
  pub store : ContentStore
  pub os : Os
  pub gunzip : List ℕ → Option (List ℕ)
  pub add : AddSnapshot
  pub others : Client → Client × Bool
  pub root : String

module _ (set : Setting) (out : Outside) where
  -- The image that is there already: a complete one is loaded, an incomplete one is removed.
  already : Act (Unit {0})
  already w = (
    w,
    stop (record {
      img = true;
      meta = none;
      base = "";
      err = some "requested image already exists";
    }),
  )

  load_complete : String → Act (Unit {0})
  unfolding already
  load_complete digest = do
    _ ← with_client "" (load_image set.sys set.store set.root digest)
    already

  check_found : Option (String × Map String String) → Act (Unit {0})
  unfolding load_complete
  check_found none = pass tt
  check_found (some (digest, labels)) = elim (lookup "complete.starlight.mc256.dev" labels) [
    | some _ ↦ load_complete digest
    | none ↦ try_only "" out.delete_image
  ]

  check_local : Act (Unit {0})
  unfolding check_found
  check_local = do found ← try "" out.find_image; check_found found

  -- The proxy's answer, whose body is read from here on.
  connected : Metadata × List ℕ → Act Metadata
  connected (res, bytes) w = (record w { body = bytes }, go res)

  ask_proxy : Act Metadata
  unfolding connected
  ask_proxy = do answer ← try "" out.delta_image; connected answer

  unfoldable pub drop_cached : String → Act (Unit {0})
  drop_cached digest w = (
    record w { client = record w.client { manager_map = remove digest w.client.manager_map } },
    go tt,
  )

  -- int64 sums, as bit patterns.
  add_sizes : ℕ → List ℕ → ℕ
  add_sizes n [] = n
  add_sizes n (x ∷ xs) = add_sizes (add64 n x) xs

  pub original_length : Metadata → List ℕ → ℕ
  unfolding add_sizes
  original_length res layers = add64 (add_sizes res.manifest_size layers) res.config_size

  -- The manifest, the configuration and the header, each read, parsed and stored.
  unfoldable pub receive : String → Metadata → Act (ℕ × List String × Bundle)
  unfolding original_length
  receive base res = do
    buf ← read_body base res.manifest_size
    (config, layers, man) ← try base (out.read_manifest buf)
    write_blob out base res.digest man
    buf ← read_body base res.config_size
    (chains, con) ← try base (out.read_config buf)
    write_blob out base config con
    buf ← read_body base res.starlight_header_size
    (star, sta) ← try base (out.read_header buf)
    write_blob out base res.starlight_digest sta
    try_only base out.create_image
    pass (original_length res layers, chains, star)

  -- The manager is made, put into the map, and the lock is given back.
  unfoldable pub add_star : String → Bundle → Act Manager
  add_star digest star w = elim (init set.root false star) [
    | none ↦ (w, crash)
    | some (image, _) ↦ (release (record w { client = register digest image w.client }), go image)
  ]

  unfoldable pub optimize : String → ℕ → Act (Unit {0})
  optimize base m w =
      if w.client.default_optimizer
      then with_client_only base (set_optimizer_on set.sys w.client.default_optimize_group m) w
      else (w, go tt)

  -- The layer map is read layer by layer, before any of the image's layers is added to it.
  has_layer : Client → String → Bool
  has_layer c digest = elim (lookup digest c.layer_map) [ none ↦ false | some _ ↦ true ]

  write_image : ℕ → Manager → Client → Client
  write_image m image c = record c {
    managers = modify c.managers m (λ x. record x { image = image });
  }

  unfoldable pub prepare : String → ℕ → Manager → Act Manager
  unfolding has_layer write_image
  prepare base m image w = elim (prepare_directories set.os (has_layer w.client) image) [
    | none ↦ (w, stop (failure base "failed to initialize directories"))
    | some image' ↦ (record w { client = write_image m image' w.client }, go image')
  ]

  -- The first signal, and the content.
  announce : Message → Act (Unit {0})
  announce m w = (send m w, go tt)

  extracted : String → ℕ → Result → Act (Unit {0})
  unfolding write_image
  extracted base m r w =
      let w' = record w {
        client = write_image m r.manager w.client;
        disk = r.disk;
        body = r.connection;
      } in
      elim r.end [
        | done ↦ (w', go tt)
        | failed ↦ (w', stop (failure base "failed to extract starlight image"))
        | panicked ↦ (w', crash)
      ]

  unpack : String → ℕ → Manager → Act (Unit {0})
  unfolding extracted
  unpack base m image w = extracted base m (extract set.os set.gunzip image w.disk w.body) w

  -- An error here is only logged.
  mark : Option String → Act (Unit {0})
  mark none w = (record w { completed = true }, go tt)
  mark (some _) w = (w, quit)

  update : Option String → Act (Unit {0})
  update none w = (w, go tt)
  update (some _) w = (w, quit)
