-- ===== src/Common/LayerCache.antt =====
-- The cache of one layer and those who wait for it (util/common/cache.go), and the two places that
-- the proxy handles the cache in: the eviction of proxy/server.go. A channel is its position among
-- the channels; the lock is held for the whole of each operation below, which are the atomic steps.
pub mod Waiting
pub mod Fetching
use starlight.Prelude.{
  ℕ, ◌+◌, String, Bool, true, false, ◌&&◌, Option, none, some, List, [], ◌∷◌, ◌++◌, ltb, leb, ◌==◌,
  nat_comparable, text_comparable, if◌then◌else◌, length, modify, write_all, Map,
}

-- What was sent on a channel, and how often it was closed: the second time is a panic.
pub record Channel : Type 0 where
  pub messages : List String
  pub closes : ℕ

pub record LayerCache : Type 0 where
  pub buffer : Option (List ℕ)
  pub ready : Bool
  pub use_counter : ℕ
  pub last_used : ℕ
  pub subscribers : List ℕ
  pub digest : String
  pub size : ℕ

unfoldable pub new_layer_cache : ℕ → String → ℕ → LayerCache
new_layer_cache now digest size = record {
  buffer = none;
  ready = false;
  use_counter = 0;
  last_used = now;
  subscribers = [];
  digest = digest;
  size = size;
}

pub close : Channel → Channel
close c = record c { closes = c.closes + 1 }

-- `*s <- err` if there is an error, then `close(*s)`
pub finish : Option String → Channel → Channel
unfolding close
finish none c = close c
finish (some err) c = close (record c { messages = c.messages ++ err ∷ [] })

notify : Option String → LayerCache → List Channel → List Channel
unfolding finish
notify err lc channels = write_all (finish err) lc.subscribers channels

set_ready : Option String → LayerCache → List Channel → LayerCache × List Channel
unfolding notify
set_ready err lc channels = (record lc { ready = true }, notify err lc channels)

pub subscribe : ℕ → LayerCache → List Channel → LayerCache × List Channel
unfolding close
subscribe c lc channels =
    if lc.ready
    then (lc, modify channels c close)
    else (record lc { subscribers = lc.subscribers ++ c ∷ [] }, channels)

-- What the registry answers for a layer: an error, or the bytes and how their transfer ended.
pub data Answer : Type 0 where
  refused : String → Answer
  sent : List ℕ → Option String → Answer

-- The body of `Load` without the deferred call.
pub download : Answer → LayerCache → LayerCache × Option String
download (refused err) lc = (lc, some err)
download (sent bytes (some err)) lc = (lc, some err)
download (sent bytes none) lc =
    if length bytes == lc.size
    then (record lc { buffer = some bytes }, none)
    else (lc, some "size unmatch")

-- The argument of the deferred `SetReady` is evaluated at the `defer`, where the error is nil.
pub load : Answer → LayerCache → List Channel → (LayerCache × List Channel) × Option String
unfolding download set_ready
load answer lc channels = let (lc', err) = download answer lc in (set_ready none lc' channels, err)

-- `cacheTimeoutValidator`: one pass over the cache.
pub evict : ℕ → ℕ → Map String LayerCache → Map String LayerCache
evict now timeout [] = []
evict now timeout ((k, v) ∷ cache) =
    let rest = evict now timeout cache in
    if leb v.use_counter 0 && ltb (now + timeout) v.last_used then rest else (k, v) ∷ rest
