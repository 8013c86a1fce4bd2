-- ===== src/Client/Pull.antt =====
-- Pulling an image (`PullImage` of client/client.go): what it needs from outside, and its actions. The
-- mutex of the manager map, the body of the proxy's answer, the content store, the disk and the
-- messages that were sent are the world; an action that returns early stops with the message that it
-- sends. The messages are those that a reader of the channel takes; the channel has no buffer, so that
-- a pull whose second message nobody takes does not get past it, which is not shown.
pub mod Stages
use starlight.Prelude.{
  ℕ, ◌+◌, ◌^◌, String, Bool, true, false, Option, none, some, List, [], ◌∷◌, ◌++◌, leb,
  nat_comparable, text_comparable, if◌then◌else◌, length, take, drop, Map, insert, Outcome, Error,
  err_no_manager, message, ok, error, panic,
}
use starlight.Client.Setup.{Bundle}
use starlight.Client.Extract.{Disk}
use starlight.Client.Mounting.{Client}

pub record Metadata : Type 0 where
  pub manifest_size : ℕ
  pub config_size : ℕ
  pub starlight_header_size : ℕ
  pub content_length : ℕ
  pub original_length : ℕ
  pub digest : String
  pub starlight_digest : String

-- PullFinishedMessage; of the image, whether there is one.
pub record Message : Type 0 where
  pub img : Bool
  pub meta : Option Metadata
  pub base : String
  pub err : Option String

pub record World : Type 0 where
  pub client : Client
  pub held : Bool
  -- how often a mutex was unlocked that was not locked
  pub faults : ℕ
  pub body : List ℕ
  pub blobs : Map String (List ℕ)
  pub disk : Disk
  pub completed : Bool
  pub sent : List Message

-- containerd's image service and content store, the proxy, gzip and JSON. A manifest is the digest of
-- the configuration and the sizes of the layers, a configuration is the chain ids of its layers.
pub record Outside : Type 0 where
  pub find_image : Outcome (Option (String × Map String String))
  pub delete_image : Option String
  pub delta_image : Outcome (Metadata × List ℕ)
  pub read_manifest : List ℕ → Outcome (String × List ℕ × List ℕ)
  pub read_config : List ℕ → Outcome (List String × List ℕ)
  pub read_header : List ℕ → Outcome (Bundle × List ℕ)
  pub write_blob : String → Option String
  pub create_image : Option String
  pub update_image : Option String
  pub update_manifest : Option String

-- What an action comes to: a value, a return after a message, a return without one, or a panic.
pub data Stop (A : Type 0) : Type 0 where
  go : A → Stop A
  stop : Message → Stop A
  quit : Stop A
  crash : Stop A

abbrev pub Act : Type 0 → Type 0
Act A = World → World × Stop A

abbrev pub bound : {A B : Type 0} → (A → Act B) → World × Stop A → World × Stop B
bound f (w, go a) = f a w
bound f (w, stop m) = (w, stop m)
bound f (w, quit) = (w, quit)
bound f (w, crash) = (w, crash)

infixl 5 ◌>>=◌ ◌>>◌
abbrev pub ◌>>=◌ : {A B : Type 0} → Act A → (A → Act B) → Act B
(m >>= f) w = bound f (m w)

abbrev pub ◌>>◌ : {B : Type 0} → Act (Unit {0}) → Act B → Act B
m >> k = m >>= λ _. k

abbrev pub pass : {A : Type 0} → A → Act A
pass a w = (w, go a)

pub failure : String → String → Message
failure base e = record { img = false; meta = none; base = base; err = some e }

abbrev pub text_of : Error → String
text_of err_no_manager = "no manager found"
text_of (message e) = e

-- The result of a call, whose error is sent.
abbrev pub try : {A : Type 0} → String → Outcome A → Act A
try base (ok a) w = (w, go a)
try base (error e) w = (w, stop (failure base (text_of e)))
try base panic w = (w, crash)

abbrev pub try_only : String → Option String → Act (Unit {0})
try_only base none w = (w, go tt)
try_only base (some e) w = (w, stop (failure base e))

-- Only one who holds no lock comes here: a second lock waits for ever.
pub lock : Act (Unit {0})
lock w = if w.held then (w, crash) else (record w { held = true }, go tt)

unfoldable pub release : World → World
release w = if w.held then record w { held = false } else record w { faults = w.faults + 1 }

unfoldable pub send : Message → World → World
send m w = record w { sent = w.sent ++ m ∷ [] }

-- `readBody`: a negative capacity panics; a body that ends early is an error, and is used up.
unfoldable pub read_body : String → ℕ → Act (List ℕ)
read_body base s w =
    if leb (2 ^ 63) s
    then (w, crash)
    else (if leb s (length w.body)
        then (record w { body = drop s w.body }, go (take s w.body))
        else (record w { body = [] }, stop (failure base "EOF")))

-- `content.WriteBlob`, under the blob's digest.
unfoldable pub write_blob : Outside → String → String → List ℕ → Act (Unit {0})
write_blob out base digest bytes w = elim (out.write_blob digest) [
  | some e ↦ (w, stop (failure base e))
  | none ↦ (record w { blobs = insert digest bytes w.blobs }, go tt)
]

-- An operation on the client, and one that may fail.
unfoldable pub with_client : {A : Type 0} → String → (Client → Client × Outcome A) → Act A
with_client base f w = let (c, r) = f w.client in try base r (record w { client = c })

unfoldable pub with_client_only : String → (Client → Client × Option String) → Act (Unit {0})
with_client_only base f w = let (c, r) = f w.client in try_only base r (record w { client = c })
