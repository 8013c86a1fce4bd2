-- ===== src/Examples/Fetching.antt =====
-- Two requests for one layer: the first loads it, the second waits (proxy/builder.go).
use starlight.Prelude.{
  ℕ, ◌<◌, ◌≡◌, refl, ◌⊎◌, some, nat_comparable, text_comparable, get_elem?, lookup, insert,
}
use starlight.Common.LayerCache.{LayerCache, Answer, new_layer_cache}
use starlight.Common.LayerCache.Fetching.{loading, Server, set_stage, look_up, wait_for, load_layer}
use starlight.Common.LayerCache.Fetching.Lists.{closes_at}
use starlight.Common.LayerCache.Fetching.Wakeups.{
  Fetching, begin, then_step, looked_up, subscribed, quiet_server, fetch-woken,
}

abbrev one_loads : Server
one_loads = look_up 100 "sha256:2" 3 0 quiet_server

abbrev one_finds : Server
one_finds = look_up 101 "sha256:2" 3 1 one_loads

abbrev one_waits : Server
one_waits = wait_for 1 0 (new_layer_cache 100 "sha256:2" 3) one_finds

two_requests : Fetching one_waits
unfolding look_up set_stage new_layer_cache lookup insert
two_requests =
    then_step
      (then_step (then_step begin (looked_up 0 "sha256:2" 3 100 refl refl))
        (looked_up 1 "sha256:2" 3 101 refl refl))
      (subscribed 1 0 (new_layer_cache 100 "sha256:2" 3) refl refl refl)

fetch-woken_example :
    (0 < closes_at one_waits.channels 0)
    ⊎ ((j : ℕ) × (lc : LayerCache) × (one_waits.requests j ≡ loading 0)
        × (get_elem? one_waits.caches 0 ≡ some lc)
        × ((answer : Answer) → 0 < closes_at (load_layer j 0 lc answer one_waits).channels 0))
unfolding look_up set_stage new_layer_cache wait_for lookup insert
fetch-woken_example = fetch-woken 1 0 0 two_requests refl
