-- ===== src/Common/LayerCache/Fetching/Joining.antt =====
-- Subscribing to a cache and loading it keep what holds of the requests (proxy/builder.go,
-- util/common/cache.go).
use starlight.Prelude.{
  ℕ, ◌≤◌, ◌<◌, String, ◌≡◌, refl, sym, ap, ◌∙◌, subst, ◌≢◌, ◌⊎◌, inl, inr, true, false, Option,
  none, some, List, [], ◌∷◌, ◌++◌, arith, ◌==◌, nat_comparable, text_comparable, Bool-cases, length,
  get_elem?, modify, write_all, length-append, contains,
}
use starlight.Common.LayerCache.{
  LayerCache, Channel, Answer, close, finish, load, set_ready, notify, download,
}
use starlight.Common.LayerCache.Fetching.{
  Stage, found, waits, loading, Server, joined, wait_for, load_layer, fresh_channel, settled, ended,
}
use starlight.Common.LayerCache.Waiting.{subscribe_cases, subscribers-download}
use mathlib.Core.Bool.{false≢true, true≢false}
use starlight.Common.LayerCache.Fetching.Lists.{
  closes_at, ready_at, closes_append, closes-write_all, subscribers_at, closes-modify,
  closed-write_all, ready-modify_self, length-modify, length-write_all, ready-modify_other,
  closed-modify, contains-append, contains_last,
}
use starlight.Common.LayerCache.Fetching.Awaiting.{Woken, Awaited, Woken-set_stage}

Woken-joined :
    (s : Server) (i k : ℕ) (lc new : LayerCache) (channels : List Channel)
    → s.requests i ≡ found k
    → get_elem? s.caches k ≡ some lc
    → new.ready ≡ lc.ready
    → ((n : ℕ) → contains lc.subscribers n ≡ true → contains new.subscribers n ≡ true)
    → ((n : ℕ) → closes_at s.channels n ≤ closes_at channels n)
    → length s.channels < length channels
    → (0 < closes_at channels (length s.channels))
      ⊎ ((new.ready ≡ false) × (contains new.subscribers (length s.channels) ≡ true))
    → Woken s
    → Woken (joined i k (new, channels) s)
unfolding joined
Woken-joined s i k lc new channels e g ready more grow longer mine h =
    Woken-set_stage s (joined i k (new, channels) s) i (waits k (length s.channels)) h refl kept
      fresh (λ j r. inl (back j r, λ q. cc))
  where
    self :
        (ready_at s.caches k ≡ lc.ready)
        × (subscribers_at s.caches k ≡ lc.subscribers)
        × (ready_at (modify s.caches k (λ _. new)) k ≡ new.ready)
        × (subscribers_at (modify s.caches k (λ _. new)) k ≡ new.subscribers)
    self = ready-modify_self new s.caches k lc g

    back : (j : ℕ) → ready_at (modify s.caches k (λ _. new)) j ≡ false → ready_at s.caches j ≡ false
    back j r = elim (Bool-cases (k == j)) [
      | inl p ↦
          let q : k ≡ j = (nat_comparable.agrees k j).0 p in
          subst (λ a. ready_at s.caches a ≡ false) q
            (self.0 ∙ sym ready ∙ sym self.2 ∙ ap (ready_at (modify s.caches k (λ _. new))) q ∙ r)
      | inr p ↦
          let n : k ≢ j = λ q. false≢true (sym p ∙ (nat_comparable.agrees k j).1 q) in
          sym (ready-modify_other new s.caches k j n).0 ∙ r
    ]

    kept : (j n : ℕ) → Awaited s j n → Awaited (joined i k (new, channels) s) j n
    kept j n (inl c) = inl (omega (arith, c, grow n))
    kept j n (inr (r, c, l)) = elim (Bool-cases (k == j)) [
      | inl p ↦
          let q : k ≡ j = (nat_comparable.agrees k j).0 p in
          subst (λ a. Awaited (joined i k (new, channels) s) a n) q
            (inr (
              self.2 ∙ ready ∙ sym self.0 ∙ ap (ready_at s.caches) q ∙ r,
              ap (λ x. contains x n) self.3
                  ∙ more n (
                      ap (λ x. contains x n) (sym self.1)
                      ∙ ap (λ a. contains (subscribers_at s.caches a) n) q
                      ∙ c),
              omega (arith, l, longer),
            ))
      | inr p ↦
          let d : k ≢ j = λ q. false≢true (sym p ∙ (nat_comparable.agrees k j).1 q) in
          let o = ready-modify_other new s.caches k j d in
          inr (o.0 ∙ r, ap (λ x. contains x n) o.1 ∙ c, omega (arith, l, longer))
    ]

    own : Awaited (joined i k (new, channels) s) k (length s.channels)
    own = elim mine [
      | inl c ↦ inl c
      | inr (r, c) ↦ inr (self.2 ∙ r, ap (λ x. contains x (length s.channels)) self.3 ∙ c, longer)
    ]

    fresh :
        (j n : ℕ)
        → waits k (length s.channels) ≡ waits j n
        → Awaited (joined i k (new, channels) s) j n
    fresh j n q =
        subst (λ (w : ℕ × ℕ). Awaited (joined i k (new, channels) s) w.0 w.1)
          (ap (λ (x : Stage). elim x [ waits a b ↦ (a, b) | _ ↦ (k, length s.channels) ]) q) own

close-more : (c : Channel) → c.closes < (close c).closes
unfolding close
close-more c = omega arith

pub Woken-wait_for :
    (s : Server) (i k : ℕ) (lc : LayerCache)
    → s.requests i ≡ found k
    → get_elem? s.caches k ≡ some lc
    → Woken s
    → Woken (wait_for i k lc s)
unfolding wait_for
Woken-wait_for s i k lc e g h = elim (Bool-cases lc.ready) [
  | inl p ↦
      subst (λ r. Woken (joined i k r s)) (sym (subscribe_cases n lc chs true p))
        (Woken-joined s i k lc lc (modify chs n close) e g refl (λ n c. c)
          (λ j. omega (
            arith,
            closes_append s.channels (fresh_channel ∷ []) j,
            closes-modify close close-more chs n j,
          ))
          (omega (
            arith,
            length-append s.channels (fresh_channel ∷ []),
            length-modify close close-more chs n,
          ))
          (inl (
            closed-modify close close-more chs n
              (omega (arith, length-append s.channels (fresh_channel ∷ [])))))
          h)
  | inr p ↦
      subst (λ r. Woken (joined i k r s)) (sym (subscribe_cases n lc chs false p))
        (Woken-joined s i k lc (record lc { subscribers = lc.subscribers ++ n ∷ [] }) chs e g refl
          (λ j c. contains-append lc.subscribers (n ∷ []) j c)
          (λ j. closes_append s.channels (fresh_channel ∷ []) j)
          (omega (arith, length-append s.channels (fresh_channel ∷ [])))
          (inr (p, contains_last lc.subscribers n)) h)
]
  where
    n : ℕ
    n = length s.channels

    chs : List Channel
    chs = s.channels ++ fresh_channel ∷ []

Woken-settled :
    (s : Server) (i k : ℕ) (lc new : LayerCache) (channels : List Channel) (err : Option String)
    → s.requests i ≡ loading k
    → get_elem? s.caches k ≡ some lc
    → new.ready ≡ true
    → ((n : ℕ) → closes_at s.channels n ≤ closes_at channels n)
    → ((n : ℕ)
        → contains lc.subscribers n ≡ true
        → n < length s.channels
        → 0 < closes_at channels n)
    → length channels ≡ length s.channels
    → Woken s
    → Woken (settled i k ((new, channels), err) s)
unfolding settled
Woken-settled s i k lc new channels err e g ready grow closed same h =
    Woken-set_stage s (settled i k ((new, channels), err) s) i (ended err k) h refl kept
      (λ j n q. absurd (not_waiting err j n q))
      (λ j r. inl (back j r, λ q. other j r (inverse j q)))
  where
    self :
        (ready_at s.caches k ≡ lc.ready)
        × (subscribers_at s.caches k ≡ lc.subscribers)
        × (ready_at (modify s.caches k (λ _. new)) k ≡ new.ready)
        × (subscribers_at (modify s.caches k (λ _. new)) k ≡ new.subscribers)
    self = ready-modify_self new s.caches k lc g

    not_waiting : (o : Option String) (j n : ℕ) → ended o k ≡ waits j n → ⊥
    not_waiting none j n q = cc
    not_waiting (some _) j n q = cc

    inverse : (j : ℕ) → s.requests i ≡ loading j → k ≡ j
    inverse j q = ap (λ (x : Stage). elim x [ loading a ↦ a | _ ↦ k ]) (sym e ∙ q)

    other : (j : ℕ) → ready_at (modify s.caches k (λ _. new)) j ≡ false → k ≢ j
    other j r = λ q.
        true≢false (sym ready ∙ sym self.2 ∙ ap (ready_at (modify s.caches k (λ _. new))) q ∙ r)

    back : (j : ℕ) → ready_at (modify s.caches k (λ _. new)) j ≡ false → ready_at s.caches j ≡ false
    back j r = sym (ready-modify_other new s.caches k j (other j r)).0 ∙ r

    kept : (j n : ℕ) → Awaited s j n → Awaited (settled i k ((new, channels), err) s) j n
    kept j n (inl c) = inl (omega (arith, c, grow n))
    kept j n (inr (r, c, l)) = elim (Bool-cases (k == j)) [
      | inl p ↦
          let q : k ≡ j = (nat_comparable.agrees k j).0 p in
          inl (
            closed n
              (ap (λ x. contains x n) (sym self.1)
                ∙ ap (λ a. contains (subscribers_at s.caches a) n) q
                ∙ c)
              l)
      | inr p ↦
          let d : k ≢ j = λ q. false≢true (sym p ∙ (nat_comparable.agrees k j).1 q) in
          let o = ready-modify_other new s.caches k j d in
          inr (o.0 ∙ r, ap (λ x. contains x n) o.1 ∙ c, omega (arith, l, same))
    ]

pub finish-more : (c : Channel) → c.closes < (finish none c).closes
unfolding finish close
finish-more c = omega arith

pub Woken-load_layer :
    (s : Server) (i k : ℕ) (lc : LayerCache) (answer : Answer)
    → s.requests i ≡ loading k
    → get_elem? s.caches k ≡ some lc
    → Woken s
    → Woken (load_layer i k lc answer s)
unfolding load_layer load set_ready notify
Woken-load_layer s i k lc answer e g h =
    let got = download answer lc in
    let ids = got.0.subscribers in
    Woken-settled s i k lc (record got.0 { ready = true }) (write_all (finish none) ids s.channels)
      got.1 e g refl (closes-write_all (finish none) finish-more ids s.channels)
      (λ n c l.
        closed-write_all (finish none) finish-more ids s.channels n
          (ap (λ x. contains x n) (subscribers-download answer lc) ∙ c) l)
      (length-write_all (finish none) finish-more ids s.channels) h
