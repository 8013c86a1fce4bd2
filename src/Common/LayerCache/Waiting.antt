-- ===== src/Common/LayerCache/Waiting.antt =====
-- Who is told what of a layer (util/common/cache.go), and what is evicted (proxy/server.go).
use starlight.Prelude.{
  ℕ, ◌≤◌, String, ◌≡◌, refl, sym, ap, ◌∙◌, inl, inr, Bool, true, false, none, some, List, [], ◌∷◌,
  ◌++◌, append-nil, append_assoc, arith, ◌==◌, nat_comparable, text_comparable, if◌then◌else◌,
  Bool-cases, length, modify, write_all, All, Map, write_all-append, ◌⊎◌,
}
use starlight.Common.LayerCache.{
  subscribe, Answer, LayerCache, evict, Channel, load, close, download, set_ready, refused, notify,
  sent, finish,
}

pub subscribe_all : List ℕ → LayerCache → List Channel → LayerCache × List Channel
unfolding subscribe
subscribe_all [] lc channels = (lc, channels)
subscribe_all (c ∷ cs) lc channels =
    let (lc', channels') = subscribe c lc channels in subscribe_all cs lc' channels'

-- Some subscribe, the layer is loaded, and others subscribe after.
abbrev pub around_load :
    Answer → List ℕ → List ℕ → LayerCache → List Channel → LayerCache × List Channel
around_load answer before after lc channels =
    let (lc', channels') = subscribe_all before lc channels in
    let (now, _) = load answer lc' channels' in subscribe_all after now.0 now.1

pub subscribe_cases :
    (c : ℕ) (lc : LayerCache) (channels : List Channel) (b : Bool)
    → lc.ready ≡ b
    → subscribe c lc channels ≡ (
        if b
        then (lc, modify channels c close)
        else (record lc { subscribers = lc.subscribers ++ c ∷ [] }, channels))
unfolding subscribe
subscribe_cases c lc channels b h =
    let choose : Bool → LayerCache × List Channel = λ x.
      if x
      then (lc, modify channels c close)
      else (record lc { subscribers = lc.subscribers ++ c ∷ [] }, channels) in
    ap choose h

subscribe_all_waiting :
    (cs : List ℕ) (lc : LayerCache) (channels : List Channel)
    → lc.ready ≡ false
    → subscribe_all cs lc channels ≡ (record lc { subscribers = lc.subscribers ++ cs }, channels)
unfolding subscribe_all subscribe
subscribe_all_waiting [] lc channels h =
    ap (λ (l : List ℕ). (record lc { subscribers = l }, channels)) (sym (append-nil lc.subscribers))
subscribe_all_waiting (c ∷ cs) lc channels h =
    let waiting : LayerCache = record lc { subscribers = lc.subscribers ++ c ∷ [] } in
    ap (λ (w : LayerCache × List Channel). subscribe_all cs w.0 w.1)
      (subscribe_cases c lc channels false h)
    ∙ subscribe_all_waiting cs waiting channels h
    ∙ ap (λ (l : List ℕ). (record lc { subscribers = l }, channels))
        (append_assoc lc.subscribers (c ∷ []) cs)

subscribe_all_ready :
    (cs : List ℕ) (lc : LayerCache) (channels : List Channel)
    → lc.ready ≡ true
    → subscribe_all cs lc channels ≡ (lc, write_all close cs channels)
unfolding subscribe_all subscribe
subscribe_all_ready [] lc channels h = refl
subscribe_all_ready (c ∷ cs) lc channels h =
    ap (λ (w : LayerCache × List Channel). subscribe_all cs w.0 w.1)
      (subscribe_cases c lc channels true h)
    ∙ subscribe_all_ready cs lc (modify channels c close) h

pub subscribers-download :
    (answer : Answer) (lc : LayerCache) → (download answer lc).0.subscribers ≡ lc.subscribers
unfolding download
subscribers-download (refused err) lc = refl
subscribers-download (sent bytes (some err)) lc = refl
subscribers-download (sent bytes none) lc = elim (Bool-cases (length bytes == lc.size)) [
  | inl p ↦ rw p refl
  | inr p ↦ rw p refl
]

-- Whatever the registry answers, also when loading fails: if no one waits for the layer at first,
-- each channel that subscribes before or after the layer is loaded is closed once for each time it
-- subscribes and gets no message, and no other channel is touched. So no one waits for ever, and no
-- one is told of an error.
pub channels-around_load :
    (answer : Answer) (before after : List ℕ) (lc : LayerCache) (channels : List Channel)
    → lc.ready ≡ false
    → lc.subscribers ≡ []
    → (around_load answer before after lc channels).1 ≡ write_all close (before ++ after) channels
unfolding load set_ready notify finish
channels-around_load answer before after lc channels h e =
    let waiting : LayerCache = record lc { subscribers = lc.subscribers ++ before } in
    let closed = write_all close (download answer waiting).0.subscribers channels in
    ap
      (λ (w : LayerCache × List Channel).
        let (now, _) = load answer w.0 w.1 in (subscribe_all after now.0 now.1).1)
      (subscribe_all_waiting before lc channels h)
    ∙ ap (λ (w : LayerCache × List Channel). w.1)
        (subscribe_all_ready after (load answer waiting channels).0.0 closed refl)
    ∙ ap (λ (l : List ℕ). write_all close after (write_all close l channels))
        (subscribers-download answer waiting ∙ ap (λ (l : List ℕ). l ++ before) e)
    ∙ sym (write_all-append close before after channels)

-- If no entry was last used after the present time, no entry is ever evicted, however long ago it was.
pub evict_none :
    (now timeout : ℕ) (cache : Map String LayerCache)
    → All (λ (e : String × LayerCache). e.1.last_used ≤ now) cache
    → evict now timeout cache ≡ cache
unfolding evict
evict_none now timeout [] h = refl
evict_none now timeout ((k, v) ∷ cache) h = ground (arith, evict_none now timeout cache h.1)

-- If the buffer is empty at first, then loading either succeeds, where the registry has sent as many
-- bytes as the layer has with no error and they are the buffer, or returns an error and leaves the
-- buffer empty; in both cases the layer is then marked as ready.
pub load_result :
    (answer : Answer) (lc : LayerCache) (channels : List Channel)
    → lc.buffer ≡ none
    → ((load answer lc channels).0.0.ready ≡ true)
      × (((bytes : List ℕ) × (answer ≡ sent bytes none)
            × (length bytes ≡ lc.size)
            × ((load answer lc channels).1 ≡ none)
            × ((load answer lc channels).0.0.buffer ≡ some bytes))
          ⊎ ((err : String) × ((load answer lc channels).1 ≡ some err)
              × ((load answer lc channels).0.0.buffer ≡ none)))
unfolding load set_ready download
load_result (refused err) lc channels h = (refl, inr (err, refl, h))
load_result (sent bytes (some err)) lc channels h = (refl, inr (err, refl, h))
load_result (sent bytes none) lc channels h = elim (Bool-cases (length bytes == lc.size)) [
  | inl p ↦ rw p (refl, inl (bytes, refl, ground (arith, p), refl, refl))
  | inr p ↦ rw p (refl, inr ("size unmatch", refl, h))
]
