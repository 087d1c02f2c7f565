-- ===== src/Pool/Init.antt =====
-- include/pool/object_pool.hh and src/pool/object_pool.cc: the constructor of the pool, its sizing and
-- its first entries. What is computed in floating point is a parameter.
use shunya_kv.Prelude.{
  ℕ, zero, suc, ◌+◌, ◌*◌, ◌/◌, ◌%◌, ◌^◌, Bool, true, false, none, [], ◌∷◌, ◌++◌, ltb, ◌==◌,
  if◌then◌else◌,
}
use shunya_kv.Eviction.{SievePolicy}
use shunya_kv.Pool.{Pool, new_entry, make_entry}

-- `entry_bytes` is `sizeof(ttl::Entry)`; `target_memory` is the share of the usable memory that the
-- pool may take; `prob_share` and `prob_trigger` multiply by the percentages of the configuration and
-- cut off the fraction.
pub record PoolConfig : Type 0 where
  pub entry_bytes : ℕ
  pub page_size_goal : ℕ
  pub key_reserve : ℕ
  pub prob_budget : ℕ
  pub target_memory : ℕ
  pub prob_share : ℕ → ℕ
  pub prob_trigger : ℕ → ℕ

-- The pool with the mark that `init` has run.
pub record PoolState : Type 0 where
  pub entries : Pool
  pub initialized : Bool

abbrev pub empty_sieve : (budget : ℕ) → SievePolicy
empty_sieve budget = record { sieve_list = []; hand = none; budget = budget }

-- The constructor: the policy is set by `init`.
abbrev pub fresh_pool : (max_size : ℕ) → PoolState
fresh_pool max_size = record {
  entries = record {
    mem = λ e. new_entry;
    next_entry = 0;
    pool = [];
    sieve = empty_sieve 0;
    probation_list = [];
    probation_hand = none;
    max_size = max_size;
    prob_pool_max_size = 0;
    prob_threshold = 0;
    reaper_budget = 0;
    prob_count = 0;
    sanc_count = 0;
    prob_eviction_count = 0;
  };
  initialized = false;
}

abbrev pub get_per_entry_size_estimate : PoolConfig → ℕ
get_per_entry_size_estimate c =
    (c.entry_bytes + (c.page_size_goal + c.key_reserve) % 2 ^ 64) % 2 ^ 64

abbrev pub calculate_optimal_pool_size : PoolConfig → ℕ
calculate_optimal_pool_size c =
    if c.target_memory == 0 then 0 else c.target_memory / get_per_entry_size_estimate c

-- The size that `init` chooses for a requested one, of which 0 asks for as much as there is room for.
unfoldable pub feasible_size : PoolConfig → (max_size : ℕ) → ℕ
feasible_size c max_size =
    if max_size == 0
    then calculate_optimal_pool_size c
    else if ltb c.target_memory (get_per_entry_size_estimate c * max_size % 2 ^ 64)
    then calculate_optimal_pool_size c
    else max_size

abbrev pub push_new : Pool → Pool
push_new s = record (make_entry s) { pool = s.pool ++ s.next_entry ∷ [] }

unfoldable pub prepopulate_pool : ℕ → Pool → Pool
prepopulate_pool zero s = s
prepopulate_pool (suc n) s = prepopulate_pool n (push_new s)

unfoldable pub init : PoolConfig → SievePolicy → PoolState → PoolState
init c sieve_policy s =
    let size = feasible_size c s.entries.max_size in
    let sized = record s.entries {
      sieve = sieve_policy;
      max_size = size;
      prob_pool_max_size = c.prob_share size;
      reaper_budget = c.prob_budget;
      prob_threshold = c.prob_trigger (c.prob_share size);
    } in
    if s.initialized
    then s
    else record { entries = prepopulate_pool size sized; initialized = true }
