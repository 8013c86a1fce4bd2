-- ===== src/Common/LayerCache/Fetching/Lists.antt =====
-- Lists of channels and of caches (util/common/cache.go).
use starlight.Prelude.{
  ℕ, zero, suc, ◌≤◌, ◌<◌, ◌≡◌, refl, sym, ap, ◌∙◌, subst, ◌≢◌, ◌⊎◌, inl, inr, Bool, true, false,
  Option, none, some, List, [], ◌∷◌, ◌++◌, arith, ◌==◌, nat_comparable, text_comparable, ==_self,
  Bool-cases, length, get_elem?, modify, write_all, contains,
}
use starlight.Common.LayerCache.{LayerCache, Channel}
use mathlib.Core.Bool.{false≢true, true≢false}

abbrev pub closes_at : List Channel → ℕ → ℕ
closes_at [] n = 0
closes_at (c ∷ cs) zero = c.closes
closes_at (c ∷ cs) (suc n) = closes_at cs n

-- A cache that was never made counts as ready.
abbrev pub ready_at : List LayerCache → ℕ → Bool
ready_at [] k = true
ready_at (lc ∷ lcs) zero = lc.ready
ready_at (lc ∷ lcs) (suc k) = ready_at lcs k

abbrev pub subscribers_at : List LayerCache → ℕ → List ℕ
subscribers_at [] k = []
subscribers_at (lc ∷ lcs) zero = lc.subscribers
subscribers_at (lc ∷ lcs) (suc k) = subscribers_at lcs k

-- Lists of channels.
pub closes_append : (cs ds : List Channel) (n : ℕ) → closes_at cs n ≤ closes_at (cs ++ ds) n
closes_append [] ds n = omega arith
closes_append (c ∷ cs) ds zero = omega arith
closes_append (c ∷ cs) ds (suc n) = closes_append cs ds n

module _ (f : Channel → Channel) (more : (c : Channel) → c.closes < (f c).closes) where
  pub closes-modify : (cs : List Channel) (j n : ℕ) → closes_at cs n ≤ closes_at (modify cs j f) n
  closes-modify [] j n = omega arith
  closes-modify (c ∷ cs) zero zero = omega (arith, more c)
  closes-modify (c ∷ cs) zero (suc n) = omega arith
  closes-modify (c ∷ cs) (suc j) zero = omega arith
  closes-modify (c ∷ cs) (suc j) (suc n) = closes-modify cs j n

  pub closed-modify : (cs : List Channel) (n : ℕ) → n < length cs → 0 < closes_at (modify cs n f) n
  closed-modify [] n h = omega arith
  closed-modify (c ∷ cs) zero h = omega (arith, more c)
  closed-modify (c ∷ cs) (suc n) h = closed-modify cs n (omega (arith, h))

  pub length-modify : (cs : List Channel) (j : ℕ) → length (modify cs j f) ≡ length cs
  length-modify [] j = refl
  length-modify (c ∷ cs) zero = refl
  length-modify (c ∷ cs) (suc j) = ap suc (length-modify cs j)

  pub closes-write_all :
      (is : List ℕ) (cs : List Channel) (n : ℕ) → closes_at cs n ≤ closes_at (write_all f is cs) n
  closes-write_all [] cs n = omega arith
  closes-write_all (i ∷ is) cs n =
      omega (arith, closes-modify cs i n, closes-write_all is (modify cs i f) n)

  pub length-write_all : (is : List ℕ) (cs : List Channel) → length (write_all f is cs) ≡ length cs
  length-write_all [] cs = refl
  length-write_all (i ∷ is) cs = length-write_all is (modify cs i f) ∙ length-modify cs i

  pub closed-write_all :
      (is : List ℕ) (cs : List Channel) (n : ℕ)
      → contains is n ≡ true
      → n < length cs
      → 0 < closes_at (write_all f is cs) n
  closed-write_all [] cs n c h = absurd (false≢true c)
  closed-write_all (i ∷ is) cs n c h = elim (Bool-cases (i == n)) [
    | inl p ↦
        let q : i ≡ n = (nat_comparable.agrees i n).0 p in
        let first : 0 < closes_at (modify cs i f) n =
          subst (λ x. 0 < closes_at (modify cs x f) n) (sym q) (closed-modify cs n h) in
        omega (arith, first, closes-write_all is (modify cs i f) n)
    | inr p ↦
        closed-write_all is (modify cs i f) n (ground (arith, c, p))
          (omega (arith, h, length-modify cs i))
  ]

-- Lists of caches.
module _ (lc : LayerCache) where
  pub ready-modify_other :
      (lcs : List LayerCache) (k j : ℕ)
      → k ≢ j
      → (ready_at (modify lcs k (λ _. lc)) j ≡ ready_at lcs j)
        × (subscribers_at (modify lcs k (λ _. lc)) j ≡ subscribers_at lcs j)
  ready-modify_other [] k j h = (refl, refl)
  ready-modify_other (x ∷ xs) zero zero h = absurd (h refl)
  ready-modify_other (x ∷ xs) zero (suc j) h = (refl, refl)
  ready-modify_other (x ∷ xs) (suc k) zero h = (refl, refl)
  ready-modify_other (x ∷ xs) (suc k) (suc j) h = ready-modify_other xs k j (λ q. h (ap suc q))

  pub ready-modify_self :
      (lcs : List LayerCache) (k : ℕ) (old : LayerCache)
      → get_elem? lcs k ≡ some old
      → (ready_at lcs k ≡ old.ready)
        × (subscribers_at lcs k ≡ old.subscribers)
        × (ready_at (modify lcs k (λ _. lc)) k ≡ lc.ready)
        × (subscribers_at (modify lcs k (λ _. lc)) k ≡ lc.subscribers)
  ready-modify_self [] k old h = cc
  ready-modify_self (x ∷ xs) zero old h =
      let q : x ≡ old = ap (λ (o : Option LayerCache). elim o [ none ↦ x | some l ↦ l ]) h in
      (ap (λ l. l.ready) q, ap (λ l. l.subscribers) q, refl, refl)
  ready-modify_self (x ∷ xs) (suc k) old h = ready-modify_self xs k old h

pub ready-append :
    (lcs : List LayerCache) (lc : LayerCache) (k : ℕ)
    → ready_at lcs k ≡ false
    → (ready_at (lcs ++ lc ∷ []) k ≡ false)
      × (subscribers_at (lcs ++ lc ∷ []) k ≡ subscribers_at lcs k)
ready-append [] lc k h = absurd (true≢false h)
ready-append (x ∷ xs) lc zero h = (h, refl)
ready-append (x ∷ xs) lc (suc k) h = ready-append xs lc k h

pub ready_before :
    (lcs : List LayerCache) (lc : LayerCache) (k : ℕ)
    → ready_at (lcs ++ lc ∷ []) k ≡ false
    → (ready_at lcs k ≡ false) ⊎ (k ≡ length lcs)
ready_before [] lc zero h = inr refl
ready_before [] lc (suc k) h = absurd (true≢false h)
ready_before (x ∷ xs) lc zero h = inl h
ready_before (x ∷ xs) lc (suc k) h = elim (ready_before xs lc k h) [
  | inl p ↦ inl p
  | inr p ↦ inr (ap suc p)
]

pub contains-append : (xs ys : List ℕ) (n : ℕ) → contains xs n ≡ true → contains (xs ++ ys) n ≡ true
contains-append [] ys n h = absurd (false≢true h)
contains-append (x ∷ xs) ys n h = elim (Bool-cases (x == n)) [
  | inl p ↦ rw p refl
  | inr p ↦ ground (arith, h, p, contains-append xs ys n)
]

pub contains_last : (xs : List ℕ) (n : ℕ) → contains (xs ++ n ∷ []) n ≡ true
contains_last [] n = rw (==_self n) refl
contains_last (x ∷ xs) n = ground (arith, contains_last xs n)
