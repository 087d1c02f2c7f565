-- ===== src/Store/Started.antt =====
-- A shard at its start: the pool that include/pool/object_pool.hh sizes and src/pool/object_pool.cc
-- fills, for src/kv_store.cc.
use shunya_kv.Prelude.{
  ℕ, zero, suc, ◌+◌, ◌*◌, ◌/◌, ◌%◌, ◌^◌, ◌≤◌, ◌<◌, ◌≡◌, ◌≢◌, inl, inr, refl, sym, subst, ◌∙◌, true,
  List, [], ◌∷◌, ◌++◌, append-nil, length, length-append, arith, if◌then◌else◌, Bool-cases, ltb,
  ◌==◌,
}
use native.Mathlib.Nat.{mul-div-le, mod-eq_of_lt}
use shunya_kv.Prelude.Links.{is_linked, Distinct, Distinct-snoc}
use shunya_kv.Pool.{Pool}
use shunya_kv.Pool.Init.{
  PoolConfig, fresh_pool, empty_sieve, init, prepopulate_pool, push_new, feasible_size,
  get_per_entry_size_estimate,
}
use shunya_kv.Store.{Shelf}
use shunya_kv.Store.Ownership.{Below}
use shunya_kv.Store.Taken.{Lacks-of_Below}
use shunya_kv.Store.Runs.{IsSound}
use shunya_kv.Store.Start.{fresh_store, start_store, store_of}

-- A pool whose entries have not been used: `n` of them.
record IsUnused (n : ℕ) (s : Pool) : Type 0 where
  distinct : Distinct s.pool
  below : Below s.next_entry s.pool
  size : length s.pool ≡ n
  allocated : s.next_entry ≡ n
  no_probation : s.probation_list ≡ []
  no_sieve : s.sieve.sieve_list ≡ []

Below-snoc : (n : ℕ) (l : List ℕ) → Below n l → Below (n + 1) (l ++ n ∷ [])
Below-snoc n [] h = omega arith
Below-snoc n (x ∷ l) (lt, h) = (omega arith, Below-snoc n l h)

push_new-IsUnused : (n : ℕ) (s : Pool) → IsUnused n s → IsUnused (n + 1) (push_new s)
push_new-IsUnused n s u = record {
  distinct =
      Distinct-snoc s.pool s.next_entry (Lacks-of_Below s.next_entry s.pool u.below) u.distinct;
  below = Below-snoc s.next_entry s.pool u.below;
  size = omega (arith, u.size, length-append s.pool (s.next_entry ∷ []));
  allocated = omega (arith, u.allocated);
  no_probation = u.no_probation;
  no_sieve = u.no_sieve;
}

prepopulate_pool-IsUnused :
    (k n : ℕ) (s : Pool) → IsUnused n s → IsUnused (n + k) (prepopulate_pool k s)
unfolding prepopulate_pool
prepopulate_pool-IsUnused zero n s u = subst (λ z. IsUnused z s) (omega arith) u
prepopulate_pool-IsUnused (suc k) n s u =
    subst (λ z. IsUnused z (prepopulate_pool k (push_new s))) (omega arith)
      (prepopulate_pool-IsUnused k (n + 1) (push_new s) (push_new-IsUnused n s u))

prepopulate_pool-max : (k : ℕ) (s : Pool) → (prepopulate_pool k s).max_size ≡ s.max_size
unfolding prepopulate_pool
prepopulate_pool-max zero s = refl
prepopulate_pool-max (suc k) s = prepopulate_pool-max k (push_new s)

nothing_linked : (e : ℕ) (l : List ℕ) → l ≡ [] → is_linked e l ≢ true
unfolding is_linked
nothing_linked e [] empty h = cc
nothing_linked e (x ∷ l) empty h = cc

-- Without entries in the map, an unused pool is sound.
unused-IsSound :
    (n : ℕ) (sh : Shelf) (s : Pool)
    → IsUnused n s
    → IsSound (record { shelf = record sh { map = [] }; entry_pool = s })
unused-IsSound n sh s u = record {
  owned = record {
    distinct = subst Distinct (sym (append-nil s.pool)) u.distinct;
    below = subst (Below s.next_entry) (sym (append-nil s.pool)) u.below;
  };
  tidy = record {
    in_probation = λ e h. absurd (nothing_linked e s.probation_list u.no_probation h);
    in_sieve = λ e h. absurd (nothing_linked e s.sieve.sieve_list u.no_sieve h);
    probation_distinct = subst Distinct (sym u.no_probation) tt;
    sieve_distinct = subst Distinct (sym u.no_sieve) tt;
    no_probation = λ z. u.no_probation;
  };
}

-- What `init` makes of a new pool.
init-IsUnused :
    (c : PoolConfig) (budget max_size : ℕ)
    → IsUnused
        (feasible_size c max_size)
        (init c (empty_sieve budget) (fresh_pool max_size)).entries
unfolding init
init-IsUnused c budget max_size =
    let none_before : 0 + feasible_size c max_size ≡ feasible_size c max_size = omega arith in
    let filled = prepopulate_pool-IsUnused (feasible_size c max_size) 0 _ (record {
      distinct = tt;
      below = tt;
      size = refl;
      allocated = refl;
      no_probation = refl;
      no_sieve = refl;
    }) in
    subst (λ n. IsUnused n (init c (empty_sieve budget) (fresh_pool max_size)).entries) none_before
      filled

share_fits : (each target : ℕ) → each * (if target == 0 then 0 else target / each) ≤ target
share_fits each target = ground (arith, mul-div-le target each)

feasible_size_fits :
    (c : PoolConfig) (max_size : ℕ)
    → get_per_entry_size_estimate c * max_size < 2 ^ 64
    → get_per_entry_size_estimate c * feasible_size c max_size ≤ c.target_memory
unfolding feasible_size
feasible_size_fits c max_size no_overflow = go (get_per_entry_size_estimate c) no_overflow
  where
    go :
        (each : ℕ)
        → each * max_size < 2 ^ 64
        → each
            * (if max_size == 0
                then (if c.target_memory == 0 then 0 else c.target_memory / each)
                else if ltb c.target_memory (each * max_size % 2 ^ 64)
                then (if c.target_memory == 0 then 0 else c.target_memory / each)
                else max_size)
          ≤ c.target_memory
    go each h = elim (Bool-cases (max_size == 0)) [
      | inl z ↦ rw z (share_fits each c.target_memory)
      | inr z ↦
          let exact : each * max_size % 2 ^ 64 ≡ each * max_size = mod-eq_of_lt h in
          elim (Bool-cases (ltb c.target_memory (each * max_size))) [
            | inl t ↦ rw (z, exact, t) (share_fits each c.target_memory)
            | inr t ↦ rw (z, exact, t) (ground (arith, t))
          ]
    ]

-- A store that is started for the first time.
pub start_store-IsSound :
    (c : PoolConfig) (budget : ℕ) → IsSound (store_of (start_store c budget fresh_store))
start_store-IsSound c budget =
    unused-IsSound (feasible_size c 0) fresh_store.shelf _ (init-IsUnused c budget 0)

pub fresh_store-IsSound : IsSound (store_of fresh_store)
fresh_store-IsSound = unused-IsSound 0 fresh_store.shelf _ (record {
  distinct = tt;
  below = tt;
  size = refl;
  allocated = refl;
  no_probation = refl;
  no_sieve = refl;
})

module _ (c : PoolConfig) (budget : ℕ) where
  -- A pool that is initialised for `max_size` entries, or with 0 for as many as there is room for, holds
  -- `max_size_` new entries, and these fit into the memory that the pool may take, if the product of the
  -- requested size and the size of an entry does not overflow 64 bits and an entry has a size.
  pub init-fits :
      (max_size : ℕ)
      → 0 < get_per_entry_size_estimate c
      → get_per_entry_size_estimate c * max_size < 2 ^ 64
      → (let p = (init c (empty_sieve budget) (fresh_pool max_size)).entries in
          (length p.pool ≡ p.max_size)
          × (get_per_entry_size_estimate c * p.max_size ≤ c.target_memory))
  unfolding init
  init-fits max_size some_size no_overflow =
      let size = feasible_size c max_size in
      let u = init-IsUnused c budget max_size in
      let kept = prepopulate_pool-max size _ in
      (
        u.size ∙ sym kept,
        subst (λ z. get_per_entry_size_estimate c * z ≤ c.target_memory) (sym kept)
            (feasible_size_fits c max_size no_overflow),
      )
