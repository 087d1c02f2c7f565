-- ===== src/Store/Taken.antt =====
-- The entry that src/pool/object_pool.cc gives out is for a while neither in the pool nor in the map.
use shunya_kv.Prelude.{
  ℕ, ◌+◌, ◌%◌, ◌^◌, ◌≡◌, ◌⊎◌, refl, sym, ap, subst, ◌∙◌, false, List, [], ◌∷◌, ◌++◌, length, arith,
  Bool-cases, inl, inr, leb,
}
use shunya_kv.Prelude.Links.{front, Lacks, Distinct}
use shunya_kv.Eviction.{is_empty}
use shunya_kv.Pool.{
  Pool, reap, run_sequential_reaper, no_keys, acquire, do_acquire, do_prob_acquire, front_of,
  rest_of,
}
use shunya_kv.Pool.Release.{reap-pool}
use shunya_kv.Store.{Shelf, evict_keys}
use shunya_kv.Store.Ownership.{
  entries, Below, IsOwned, Keeps, Keeps-refl, Keeps-trans, evict_keys-Keeps, same-Keeps,
}

run_sequential_reaper-Keeps :
    (sh : Shelf) (s : Pool)
    → (let (sh', s') = run_sequential_reaper evict_keys sh s in Keeps sh s sh' s')
unfolding run_sequential_reaper
run_sequential_reaper-Keeps sh s = elim (Bool-cases (is_empty s.probation_list)) [
  | inl t ↦ rw t (Keeps-refl sh s)
  | inr t ↦
      let start = record s { probation_hand = front s.probation_list } in
      let (p, n) = reap-pool s.reaper_budget start [] in
      let (reaped, victims) = reap s.reaper_budget start [] in
      let counted = record reaped {
        prob_eviction_count = (s.prob_eviction_count + length victims) % 2 ^ 64;
      } in
      rw t (elim (Bool-cases (no_keys victims)) [
        | inl f ↦ rw f (same-Keeps sh s counted p n)
        | inr f ↦ rw f (
            Keeps-trans sh s sh counted _ _ (same-Keeps sh s counted p n)
              (evict_keys-Keeps victims sh counted))
      ])
]

-- The entry `e` is neither in the pool nor in the map.
abbrev pub IsTaken : Shelf → Pool → ℕ → Type 0
IsTaken sh s e = IsOwned (e ∷ []) sh s

pub Lacks-of_Below : (n : ℕ) (l : List ℕ) → Below n l → Lacks n l
Lacks-of_Below n [] h = tt
Lacks-of_Below n (x ∷ l) h = ((λ e. absurd (omega (arith, h.0))), Lacks-of_Below n l h.1)

pub Below-suc : (n : ℕ) (l : List ℕ) → Below n l → Below (n + 1) l
Below-suc n [] h = tt
Below-suc n (x ∷ l) h = (omega (arith, h.0), Below-suc n l h.1)

-- An entry that is made anew.
made-IsTaken :
    (sh : Shelf) (s s' : Pool)
    → IsOwned [] sh s
    → s'.pool ≡ s.pool
    → s'.next_entry ≡ s.next_entry + 1
    → IsTaken sh s' s.next_entry
made-IsTaken sh s s' o p n =
    rw (p, n)
      (record {
        distinct = (Lacks-of_Below s.next_entry _ o.below, o.distinct);
        below = (omega arith, Below-suc s.next_entry _ o.below);
      })

-- An entry from the front of the pool.
front-IsTaken :
    (sh : Shelf) (s s' : Pool) (x : ℕ) (l : List ℕ)
    → IsOwned [] sh s
    → s.pool ≡ x ∷ l
    → s'.pool ≡ l
    → s'.next_entry ≡ s.next_entry
    → IsTaken sh s' x
front-IsTaken sh s s' x l o p q n = record {
  distinct = rw q (subst (λ y. Distinct (y ++ entries sh.map)) p o.distinct);
  below =
      subst (λ m. Below m (x ∷ (s'.pool ++ entries sh.map))) (sym n)
        (subst (λ y. Below s.next_entry (x ∷ (y ++ entries sh.map))) (sym q)
          (subst (λ y. Below s.next_entry (y ++ entries sh.map)) p o.below));
}

pub pool-cases : (l : List ℕ) → (l ≡ []) ⊎ ((x : ℕ) × (r : List ℕ) × (l ≡ x ∷ r))
pool-cases [] = inl refl
pool-cases (x ∷ r) = inr (x, r, refl)

do_acquire-IsTaken :
    (sh : Shelf) (s : Pool) → IsOwned [] sh s → (let (s', e) = do_acquire s in IsTaken sh s' e)
unfolding do_acquire
do_acquire-IsTaken sh s o = elim (pool-cases s.pool) [
  | inl p ↦ rw p (made-IsTaken sh s _ o (sym p) refl)
  | inr (x, l, p) ↦ rw p (front-IsTaken sh s _ x l o p refl refl)
]

some_left : (p q : List ℕ) → is_empty p ≡ false → ¬ (p ++ q ≡ [])
some_left [] q t e = cc
some_left (x ∷ p) q t e = cc

-- The pool's front, after more entries may have come to its back.
kept-IsTaken :
    (sh : Shelf) (s : Pool) (sh' : Shelf) (s' s'' : Pool)
    → IsOwned [] sh s
    → is_empty s.pool ≡ false
    → Keeps sh s sh' s'
    → s''.pool ≡ rest_of s'.pool
    → s''.next_entry ≡ s'.next_entry
    → IsTaken sh' s'' (front_of s'.pool s'.next_entry)
kept-IsTaken sh s sh' s' s'' o t k q n = elim (pool-cases s'.pool) [
  | inl p ↦ absurd (some_left s.pool k.added t (sym k.grown ∙ p))
  | inr (x, l, p) ↦
      subst (IsTaken sh' s'') (ap (λ r. front_of r s'.next_entry) (sym p))
        (front-IsTaken sh' s' s'' x l (k.owned [] o) p (q ∙ ap rest_of p) n)
]

do_prob_acquire-IsTaken :
    (sh : Shelf) (s : Pool)
    → IsOwned [] sh s
    → (let (sh', s', e) = do_prob_acquire evict_keys sh s in IsTaken sh' s' e)
unfolding do_prob_acquire
do_prob_acquire-IsTaken sh s o = elim (Bool-cases (is_empty s.pool)) [
  | inl t ↦ rw t (
      Keeps.owned (run_sequential_reaper-Keeps sh _) (s.next_entry ∷ [])
        (made-IsTaken sh s _ o refl refl))
  | inr t ↦ rw t (elim (Bool-cases (leb s.prob_threshold s.prob_count)) [
    | inl f ↦ rw f (kept-IsTaken sh s _ _ _ o t (run_sequential_reaper-Keeps sh s) refl refl)
    | inr f ↦ rw f (kept-IsTaken sh s sh s _ o t (Keeps-refl sh s) refl refl)
  ])
]

pub acquire-IsTaken :
    (sh : Shelf) (s : Pool)
    → IsOwned [] sh s
    → (let (sh', s', e) = acquire evict_keys sh s in IsTaken sh' s' e)
unfolding acquire
acquire-IsTaken sh s o = elim (Bool-cases (leb s.prob_pool_max_size 0)) [
  | inl z ↦ rw z (do_acquire-IsTaken sh s o)
  | inr z ↦ rw z (do_prob_acquire-IsTaken sh s o)
]
