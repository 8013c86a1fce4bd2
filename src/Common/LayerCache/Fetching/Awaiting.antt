-- ===== src/Common/LayerCache/Fetching/Awaiting.antt =====
-- What holds of the requests between two steps (proxy/builder.go).
use starlight.Prelude.{
  ℕ, ◌<◌, String, ◌≡◌, refl, sym, ap, ◌∙◌, subst, ◌≢◌, ◌⊎◌, inl, inr, true, false, List, [], ◌∷◌,
  ◌++◌, arith, ◌==◌, nat_comparable, text_comparable, ==_self, Bool-cases, Option-cases, length,
  contains, lookup, insert,
}
use starlight.Common.LayerCache.{Channel, new_layer_cache}
use starlight.Common.LayerCache.Fetching.{
  Stage, idle, found, waits, loading, Server, set_stage, look_up, received, wake,
}
use starlight.Common.LayerCache.Fetching.Lists.{
  closes_at, ready_at, ready-append, subscribers_at, ready_before,
}

-- A channel that is closed, or one among the subscribers of a cache that is not ready.
abbrev pub Awaited : Server → ℕ → ℕ → Type 0
Awaited s k n =
    (0 < closes_at s.channels n)
    ⊎ ((ready_at s.caches k ≡ false)
        × (contains (subscribers_at s.caches k) n ≡ true)
        × (n < length s.channels))

-- What holds between the steps.
pub record Woken (s : Server) : Type 0 where
  pub waiting : (i k n : ℕ) → s.requests i ≡ waits k n → Awaited s k n
  pub loader : (k : ℕ) → ready_at s.caches k ≡ false → (j : ℕ) × (s.requests j ≡ loading k)

-- A step that changes the stage of one request, and keeps whoever waits.
module _ (s t : Server) (i : ℕ) (x : Stage) (h : Woken s)
    (stage : t.requests ≡ set_stage i x s.requests)
    (kept : (k n : ℕ) → Awaited s k n → Awaited t k n)
    (new : (k n : ℕ) → x ≡ waits k n → Awaited t k n)
    (loads : (k : ℕ)
      → ready_at t.caches k ≡ false
      → ((ready_at s.caches k ≡ false) × (s.requests i ≢ loading k)) ⊎ (x ≡ loading k)) where
  waiting_after : (j k n : ℕ) → set_stage i x s.requests j ≡ waits k n → Awaited t k n
  unfolding set_stage
  waiting_after j k n q = elim (Bool-cases (j == i)) [
    | inl p ↦ new k n (ground (arith, p, q))
    | inr p ↦ kept k n (h.waiting j k n (ground (arith, p, q)))
  ]

  loader_after :
      (k : ℕ) → ready_at t.caches k ≡ false → (j : ℕ) × (set_stage i x s.requests j ≡ loading k)
  unfolding set_stage
  loader_after k r = elim (loads k r) [
    | inr e ↦ (i, rw (==_self i) e)
    | inl (old, other) ↦
        let (j, q) = h.loader k old in
        elim (Bool-cases (j == i)) [
          | inl p ↦
              absurd
                (other (subst (λ a. s.requests a ≡ loading k) ((nat_comparable.agrees j i).0 p) q))
          | inr p ↦ (j, rw p q)
        ]
  ]

  pub Woken-set_stage : Woken t
  Woken-set_stage = record {
    waiting = λ j k n q. waiting_after j k n (ap (λ f. f j) (sym stage) ∙ q);
    loader = λ k r. let (j, q) = loader_after k r in (j, ap (λ f. f j) stage ∙ q);
  }

-- Each step.
idle_not : (k : ℕ) (x : Stage) → x ≡ idle → x ≢ loading k
idle_not k x e = λ q. cc

pub Woken-look_up :
    (s : Server) (i : ℕ) (hash : String) (size now : ℕ)
    → s.requests i ≡ idle
    → Woken s
    → Woken (look_up now hash size i s)
unfolding look_up new_layer_cache
Woken-look_up s i hash size now e h = elim (Option-cases (lookup hash s.cache)) [
  | inr (k, p) ↦
      rw (look_up, p)
        (Woken-set_stage s (record s { requests = set_stage i (found k) s.requests }) i (found k) h
          refl (λ k n a. a) (λ k n q. cc) (λ k r. inl (r, idle_not k (s.requests i) e)))
  | inl p ↦
      rw (look_up, p)
        (let lc = new_layer_cache now hash size in
          let t = record s {
            cache = insert hash (length s.caches) s.cache;
            caches = s.caches ++ lc ∷ [];
            requests = set_stage i (loading (length s.caches)) s.requests;
          } in
          Woken-set_stage s t i (loading (length s.caches)) h refl
            (λ k n a. elim a [
              | inl c ↦ inl c
              | inr (r, c, l) ↦
                  let q = ready-append s.caches lc k r in
                  inr (q.0, ap (λ x. contains x n) q.1 ∙ c, l)
            ])
            (λ k n q. cc)
            (λ k r. elim (ready_before s.caches lc k r) [
              | inl q ↦ inl (q, idle_not k (s.requests i) e)
              | inr q ↦ inr (ap loading (sym q))
            ]))
]

pub Woken-wake :
    (s : Server) (i k n : ℕ) (c : Channel)
    → s.requests i ≡ waits k n
    → Woken s
    → Woken (wake i k c s)
unfolding wake
Woken-wake s i k n c e h =
    Woken-set_stage s (record s { requests = set_stage i (received c.messages k) s.requests }) i
      (received c.messages k) h refl (λ k n a. a) (not_waiting c.messages) (λ j r. inl (r, λ q. cc))
  where
    not_waiting :
        (l : List String) (j m : ℕ) → received l k ≡ waits j m → Awaited (wake i k c s) j m
    not_waiting [] j m q = cc
    not_waiting (_ ∷ _) j m q = cc
