-- ===== src/Common/LayerCache/Fetching/Wakeups.antt =====
-- No request for a layer waits in vain (proxy/builder.go, util/common/cache.go).
use starlight.Prelude.{
  ℕ, zero, suc, ◌<◌, String, ◌≡◌, refl, sym, ap, ◌∙◌, subst, ◌⊎◌, inl, inr, false, none, some, List,
  [], ◌∷◌, nat_comparable, text_comparable, get_elem?, contains,
}
use starlight.Common.LayerCache.{
  LayerCache, Channel, Answer, finish, load, set_ready, notify, download,
}
use starlight.Common.LayerCache.Fetching.{
  idle, found, waits, loading, Server, look_up, wait_for, wake, load_layer, evict_one, settled,
}
use starlight.Common.LayerCache.Waiting.{subscribers-download}
use mathlib.Core.Bool.{true≢false}
use starlight.Common.LayerCache.Fetching.Awaiting.{Woken, Woken-look_up, Woken-wake}
use starlight.Common.LayerCache.Fetching.Lists.{
  closes_at, ready_at, closed-write_all, ready-modify_self,
}
use starlight.Common.LayerCache.Fetching.Joining.{Woken-wait_for, finish-more, Woken-load_layer}

-- One step of one request, or of the eviction; the steps of the requests interleave.
pub data FetchStep (s t : Server) : Type 0 where
  looked_up :
      (i : ℕ) (hash : String) (size now : ℕ)
      → s.requests i ≡ idle
      → t ≡ look_up now hash size i s
      → FetchStep s t
  subscribed :
      (i k : ℕ) (lc : LayerCache)
      → s.requests i ≡ found k
      → get_elem? s.caches k ≡ some lc
      → t ≡ wait_for i k lc s
      → FetchStep s t
  woken :
      (i k n : ℕ) (c : Channel)
      → s.requests i ≡ waits k n
      → get_elem? s.channels n ≡ some c
      → 0 < c.closes
      → t ≡ wake i k c s
      → FetchStep s t
  loaded :
      (i k : ℕ) (lc : LayerCache) (answer : Answer)
      → s.requests i ≡ loading k
      → get_elem? s.caches k ≡ some lc
      → t ≡ load_layer i k lc answer s
      → FetchStep s t
  evicted : (hash : String) → t ≡ evict_one hash s → FetchStep s t

-- The server before any request.
abbrev pub quiet_server : Server
quiet_server = record { cache = []; caches = []; channels = []; requests = λ _. idle }

pub data Fetching : Server → Type 0 where
  begin : Fetching quiet_server
  then_step : {s t : Server} → Fetching s → FetchStep s t → Fetching t

Woken-FetchStep : {s t : Server} → FetchStep s t → Woken s → Woken t
unfolding evict_one
Woken-FetchStep {s = s} (looked_up i hash size now e q) h =
    subst Woken (sym q) (Woken-look_up s i hash size now e h)
Woken-FetchStep {s = s} (subscribed i k lc e g q) h =
    subst Woken (sym q) (Woken-wait_for s i k lc e g h)
Woken-FetchStep {s = s} (woken i k n c e g l q) h = subst Woken (sym q) (Woken-wake s i k n c e h)
Woken-FetchStep {s = s} (loaded i k lc answer e g q) h =
    subst Woken (sym q) (Woken-load_layer s i k lc answer e g h)
Woken-FetchStep {s = s} (evicted hash q) h =
    subst Woken (sym q) (record { waiting = h.waiting; loader = h.loader })

Woken-Fetching : {s : Server} → Fetching s → Woken s
Woken-Fetching begin = record { waiting = λ i k n q. cc; loader = λ k q. absurd (true≢false q) }
Woken-Fetching (then_step f st) = Woken-FetchStep st (Woken-Fetching f)

-- In every state that the steps of the requests and of the eviction can reach, in whatever order they
-- interleave and whatever the registry answers: if a request waits on a channel for a cache, then the
-- channel is closed already, or some request is loading this cache, and when it has loaded it, whatever
-- the registry answers it, the channel is closed.
pub fetch-woken :
    {s : Server} (i k n : ℕ)
    → Fetching s
    → s.requests i ≡ waits k n
    → (0 < closes_at s.channels n)
      ⊎ ((j : ℕ) × (lc : LayerCache) × (s.requests j ≡ loading k)
          × (get_elem? s.caches k ≡ some lc)
          × ((answer : Answer) → 0 < closes_at (load_layer j k lc answer s).channels n))
unfolding load_layer settled load set_ready notify
fetch-woken {s = s} i k n f q =
    let h = Woken-Fetching f in
    elim (h.waiting i k n q) [
      | inl c ↦ inl c
      | inr (r, c, l) ↦
          let (j, e) = h.loader k r in
          let (lc, g) = there s.caches k r in
          inr (
            j,
            lc,
            e,
            g,
            λ answer.
                closed-write_all (finish none) finish-more (download answer lc).0.subscribers
                  s.channels n
                  (ap (λ x. contains x n) (subscribers-download answer lc)
                    ∙ ap (λ x. contains x n) (sym (ready-modify_self lc s.caches k lc g).1)
                    ∙ c)
                  l,
          )
    ]
  where
    there :
        (lcs : List LayerCache) (k : ℕ)
        → ready_at lcs k ≡ false
        → (lc : LayerCache) × (get_elem? lcs k ≡ some lc)
    there [] k r = absurd (true≢false r)
    there (x ∷ xs) zero r = (x, refl)
    there (x ∷ xs) (suc k) r = there xs k r
