-- ===== src/Common/LayerCache/Fetching.antt =====
-- The requests for layers that run at the same time, each a call of fetchLayers (proxy/builder.go) on
-- the server's map of caches. A request is its number, a cache its position among all that were made.
-- Each function below is what one request does under one lock, or between two.
pub mod Lists
pub mod Awaiting
pub mod Joining
pub mod Wakeups
use starlight.Prelude.{
  ℕ, String, Option, none, some, List, [], ◌∷◌, ◌++◌, ◌==◌, nat_comparable, text_comparable,
  if◌then◌else◌, length, modify, Map, lookup, insert, remove,
}
use starlight.Common.LayerCache.{LayerCache, Channel, Answer, new_layer_cache, subscribe, load}

-- Where a request is: before the lock, with a cache that it found, waiting for a channel, loading, and
-- at the end, with the cache or an error.
pub data Stage : Type 0 where
  idle : Stage
  found : ℕ → Stage
  waits : ℕ → ℕ → Stage
  loading : ℕ → Stage
  fetched : ℕ → Stage
  gave_up : String → Stage

pub record Server : Type 0 where
  pub cache : Map String ℕ
  pub caches : List LayerCache
  pub channels : List Channel
  pub requests : ℕ → Stage

unfoldable pub set_stage : ℕ → Stage → (ℕ → Stage) → ℕ → Stage
set_stage i x requests j = if j == i then x else requests j

-- The part under cacheMutex.
unfoldable pub look_up : ℕ → String → ℕ → ℕ → Server → Server
unfolding set_stage
look_up now hash size i s = elim (lookup hash s.cache) [
  | some k ↦ record s { requests = set_stage i (found k) s.requests }
  | none ↦ record s {
    cache = insert hash (length s.caches) s.cache;
    caches = s.caches ++ new_layer_cache now hash size ∷ [];
    requests = set_stage i (loading (length s.caches)) s.requests;
  }
]

abbrev pub fresh_channel : Channel
fresh_channel = record { messages = []; closes = 0 }

-- A new channel subscribes to the cache that was found.
joined : ℕ → ℕ → LayerCache × List Channel → Server → Server
unfolding set_stage
joined i k (lc, channels) s = record s {
  caches = modify s.caches k (λ _. lc);
  channels = channels;
  requests = set_stage i (waits k (length s.channels)) s.requests;
}

unfoldable pub wait_for : ℕ → ℕ → LayerCache → Server → Server
unfolding joined
wait_for i k lc s =
    joined i k (subscribe (length s.channels) lc (s.channels ++ fresh_channel ∷ [])) s

-- The receive from the channel: the first message, or none once it is closed.
pub received : List String → ℕ → Stage
received [] k = fetched k
received (err ∷ _) k = gave_up err

pub wake : ℕ → ℕ → Channel → Server → Server
unfolding set_stage received
wake i k c s = record s { requests = set_stage i (received c.messages k) s.requests }

pub ended : Option String → ℕ → Stage
ended none k = fetched k
ended (some err) k = gave_up err

settled : ℕ → ℕ → (LayerCache × List Channel) × Option String → Server → Server
unfolding set_stage ended
settled i k ((lc, channels), err) s = record s {
  caches = modify s.caches k (λ _. lc);
  channels = channels;
  requests = set_stage i (ended err k) s.requests;
}

pub load_layer : ℕ → ℕ → LayerCache → Answer → Server → Server
unfolding settled
load_layer i k lc answer s = settled i k (load answer lc s.channels) s

-- One deletion of the eviction.
pub evict_one : String → Server → Server
evict_one hash s = record s { cache = remove hash s.cache }
