-- ===== src/Store/Tests.antt =====
-- The theorems on the entry pool and on the store at concrete states.
use shunya_kv.Prelude.{
  ◌*◌, ◌/◌, ◌≤◌, length, ℕ, ◌≡◌, ◌⊎◌, refl, Bool, true, false, none, some, List, [], ◌∷◌, ◌++◌,
  subst, ◌==◌, if◌then◌else◌, arith,
}
use shunya_kv.Prelude.Bytes.{Bytes, codes, same_bytes}
use shunya_kv.Prelude.Links.{is_linked}
use shunya_kv.Ttl.{Memory, write, is_sanctuary}
use shunya_kv.Eviction.Sweep.{keys_of}
use shunya_kv.Pool.{Pool, new_entry, run_sequential_reaper, release, acquire, do_prob_acquire}
use shunya_kv.Pool.Reaper.{after_reaper, run_sequential_reaper_lem}
use shunya_kv.Pool.Release.{Placed, Unlinked, release_lem}
use shunya_kv.Store.{Store, find, set, set_with_ttl, get}
use shunya_kv.Pool.Init.{PoolConfig, fresh_pool, empty_sieve, init, get_per_entry_size_estimate}
use shunya_kv.Store.Start.{store_of}
use shunya_kv.Store.Service.{
  fresh_service, ServiceCall, starts, local_call, counts_set, serve_calls,
}
use shunya_kv.Store.Service.Sound.{serve_calls-Unlinked}
use shunya_kv.Store.Started.{init-fits}
use shunya_kv.Store.Runs.{
  IsSound, StoreCall, sets, sets_with_ttl, gets, run_calls, run_calls-Unlinked,
}
use shunya_kv.Store.Calls.{Owned, get-set_with_ttl, get-set}

-- Entry 0 is in use with the key "a" and the time 3, in the probation list; entry 1 is in the pool.
abbrev two_entries : Memory
two_entries p =
    if p == 0
    then record new_entry { key = codes "a"; value = codes "old"; expires_at = 3; in_use = true }
    else new_entry

abbrev two_slots : Pool
two_slots = record {
  mem = two_entries;
  next_entry = 2;
  pool = 1 ∷ [];
  sieve = record { sieve_list = []; hand = none; budget = 1 };
  probation_list = 0 ∷ [];
  probation_hand = none;
  max_size = 2;
  prob_pool_max_size = 2;
  prob_threshold = 2;
  reaper_budget = 1;
  prob_count = 1;
  sanc_count = 0;
  prob_eviction_count = 0;
}

abbrev one_key : Store
one_key = record {
  shelf = record { map = (codes "a", 0) ∷ []; pool_fallback_allocs = 0; eviction_count = 0 };
  entry_pool = two_slots;
}

one_key-Owned : Owned one_key
one_key-Owned = record { distinct = ground arith; below = ground arith }

abbrev never : ℕ → ℕ → Bool
never used total = false

abbrev always : ℕ → ℕ → Bool
always used total = true

abbrev kept_keys : List Bytes → Pool → List Bytes → List Bytes × Pool
kept_keys m s v = (m ++ v, s)

run_sequential_reaper_lem_example :
    run_sequential_reaper kept_keys [] two_slots
    ≡ (codes "a" ∷ [], after_reaper kept_keys two_slots 1)
unfolding keys_of
run_sequential_reaper_lem_example =
    run_sequential_reaper_lem kept_keys [] two_slots (omega arith) (omega arith) (λ e. cc)

two_slots-Placed : Placed two_slots 0
two_slots-Placed = record {
  in_one = tt;
  no_probation = λ e. absurd (omega (arith, e));
  probation_distinct = (tt, tt);
  sieve_distinct = tt;
}

release_lem_example :
    ((release two_slots (some 0)).mem ≡ write two_entries 0 new_entry)
    × Unlinked (release two_slots (some 0)) 0
    × (((release two_slots (some 0)).pool ≡ 1 ∷ 0 ∷ [])
        ⊎ ((release two_slots (some 0)).pool ≡ 1 ∷ []))
release_lem_example = release_lem two_slots 0 two_slots-Placed

get-set_with_ttl_example :
    (get (set_with_ttl never one_key 5 (codes "a") (codes "v") 10).0 7 (codes "a")).1
    ≡ some (codes "v")
get-set_with_ttl_example =
    get-set_with_ttl never one_key 5 (codes "a") (codes "v") 10 7 one_key-Owned (omega arith)
      (omega arith) refl

-- The key's old time 3 has passed: the value that is set cannot be read.
get-set_example : (get (set never one_key 5 (codes "a") (codes "v")).0 5 (codes "a")).1 ≡ none
unfolding find same_bytes acquire do_prob_acquire
get-set_example = get-set never one_key 5 (codes "a") (codes "v") 5 one_key-Owned refl

one_key-IsSound : IsSound one_key
unfolding is_linked
one_key-IsSound = record {
  owned = one_key-Owned;
  tidy = record {
    in_probation = λ e h.
        let q : 0 ≡ e = ground (arith, h) in
        subst
          (λ x. (is_linked x (0 ∷ []) ≡ true) × (is_sanctuary (two_entries x).pool_type ≡ false)) q
          (refl, refl);
    in_sieve = λ e h. absurd (cc (h));
    probation_distinct = (tt, tt);
    sieve_distinct = tt;
    no_probation = λ e. absurd (omega (arith, e));
  };
}

abbrev some_calls : List StoreCall
some_calls =
    sets 1 (codes "b") (codes "v")
    ∷ gets 2 (codes "a")
    ∷ sets_with_ttl 3 (codes "c") (codes "w") 5
    ∷ gets 9 (codes "a")
    ∷ []

run_calls-Unlinked_example :
    IsSound (run_calls always one_key some_calls)
    × ((e : ℕ)
        → is_linked e (run_calls always one_key some_calls).entry_pool.pool ≡ true
        → Unlinked (run_calls always one_key some_calls).entry_pool e)
run_calls-Unlinked_example = run_calls-Unlinked always some_calls one_key one_key-IsSound

-- A quarter of a gigabyte for entries of 8 kB, half of them on probation.
abbrev small_pool : PoolConfig
small_pool = record {
  entry_bytes = 200;
  page_size_goal = 8192;
  key_reserve = 24;
  prob_budget = 10;
  target_memory = 268435456;
  prob_share = λ n. n / 2;
  prob_trigger = λ n. n * 9 / 10;
}

-- A GET before the start, which is in vain then.
abbrev service_calls : List ServiceCall
service_calls =
    local_call (gets 1 (codes "a"))
    ∷ starts small_pool 5
    ∷ local_call (sets 2 (codes "a") (codes "v"))
    ∷ counts_set false
    ∷ []

serve_calls-Unlinked_example :
    (let st = store_of (serve_calls always 200 fresh_service service_calls).store in
      IsSound st × ((e : ℕ) → is_linked e st.entry_pool.pool ≡ true → Unlinked st.entry_pool e))
serve_calls-Unlinked_example = serve_calls-Unlinked always 200 service_calls

init-fits_example :
    (let p = (init small_pool (empty_sieve 5) (fresh_pool 100)).entries in
      (length p.pool ≡ p.max_size)
      × (get_per_entry_size_estimate small_pool * p.max_size ≤ small_pool.target_memory))
init-fits_example = init-fits small_pool 5 100 (omega arith) (omega arith)
