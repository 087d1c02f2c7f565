-- ===== src/Store/Service.antt =====
-- `service` of src/router.cc: the store of a shard, which the first call starts if nothing has started
-- it before, and the counters of the requests.
pub mod Sound
use shunya_kv.Prelude.{
  ℕ, ◌≡◌, ◌⊎◌, inl, inr, refl, sym, ap, subst, ◌∙◌, Bool, true, false, Option, List, [], ◌∷◌,
  if◌then◌else◌,
}
use shunya_kv.Prelude.Bytes.{Bytes}
use shunya_kv.Prelude.Links.{is_linked}
use shunya_kv.Metrics.{LatencyHistogram, empty_histogram, add_us}
use shunya_kv.Pool.{inc64}
use shunya_kv.Pool.Init.{PoolConfig}
use shunya_kv.Pool.Release.{Unlinked}
use shunya_kv.Store.{Store, set, set_with_ttl, get}
use shunya_kv.Store.Start.{StoreState, fresh_store, start_store, stop_store, store_of}
use shunya_kv.Store.Started.{start_store-IsSound, fresh_store-IsSound}
use shunya_kv.Store.Runs.{
  IsSound, StoreCall, sets, sets_with_ttl, gets, run_call, run_call-IsSound, pooled-Unlinked,
}

pub record RequestCounters : Type 0 where
  pub get_total : ℕ
  pub get_forwarded : ℕ
  pub set_total : ℕ
  pub set_forwarded : ℕ
  pub cache_miss : ℕ

pub record ServiceState : Type 0 where
  pub store : StoreState
  pub started : Bool
  pub req_counters : RequestCounters
  pub latency : LatencyHistogram

abbrev pub fresh_service : ServiceState
fresh_service = record {
  store = fresh_store;
  started = false;
  req_counters = record {
    get_total = 0;
    get_forwarded = 0;
    set_total = 0;
    set_forwarded = 0;
    cache_miss = 0;
  };
  latency = empty_histogram;
}

unfoldable pub start_service : PoolConfig → (budget : ℕ) → ServiceState → ServiceState
start_service c budget s =
    if s.started then s else record s { store = start_store c budget s.store; started = true }

unfoldable pub stop_service : ServiceState → ServiceState
stop_service s = if s.started then record s { store = stop_store s.store; started = false } else s

-- `db_config cfg;` gives the pool none of the memory.
abbrev pub default_config : (entry_bytes : ℕ) → PoolConfig
default_config entry_bytes = record {
  entry_bytes = entry_bytes;
  page_size_goal = 0;
  key_reserve = 0;
  prob_budget = 0;
  target_memory = 0;
  prob_share = λ n. 0;
  prob_trigger = λ n. 0;
}

unfoldable pub ensure_started : (entry_bytes : ℕ) → ServiceState → ServiceState
unfolding start_service
ensure_started entry_bytes s =
    if s.started then s else start_service (default_config entry_bytes) 0 s

abbrev pub with_calls : ServiceState → Store → ServiceState
with_calls s st = record s {
  store = record s.store {
    shelf = st.shelf;
    entry_pool = record s.store.entry_pool { entries = st.entry_pool };
  };
}

abbrev pub record_set : ServiceState → (forwarded : Bool) → ServiceState
record_set s forwarded =
    let c = s.req_counters in
    record s {
      req_counters = record c {
        set_total = inc64 c.set_total;
        set_forwarded = if forwarded then inc64 c.set_forwarded else c.set_forwarded;
      };
    }

abbrev pub record_get_latency : ServiceState → (latency_us : ℕ) → ServiceState
record_get_latency s latency_us = record s { latency = add_us s.latency latency_us }

abbrev pub record_set_latency : ServiceState → (latency_us : ℕ) → ServiceState
record_set_latency s latency_us = record s { latency = add_us s.latency latency_us }

abbrev pub record_cache_miss : ServiceState → ServiceState
record_cache_miss s =
    let c = s.req_counters in
    record s { req_counters = record c { cache_miss = inc64 c.cache_miss } }

-- A call on a service: its start, a call on its store, or the count of a request or of its latency.
pub data ServiceCall : Type 0 where
  starts : (c : PoolConfig) (budget : ℕ) → ServiceCall
  local_call : (c : StoreCall) → ServiceCall
  counts_set : (forwarded : Bool) → ServiceCall
  counts_miss : ServiceCall
  times_get times_set : (latency_us : ℕ) → ServiceCall

module _ (over_soft_trigger : (used_slots total_slots : ℕ) → Bool) (entry_bytes : ℕ) where
  abbrev pub local_set : ServiceState → (now_s : ℕ) → (key value : Bytes) → ServiceState × Bool
  local_set s now_s key value =
      let s1 = ensure_started entry_bytes s in
      let (st, done) = set over_soft_trigger (store_of s1.store) now_s key value in
      (with_calls s1 st, done)

  abbrev pub local_set_with_ttl :
      ServiceState → (now_s : ℕ) → (key value : Bytes) → (ttl : ℕ) → ServiceState × Bool
  local_set_with_ttl s now_s key value ttl =
      let s1 = ensure_started entry_bytes s in
      let (st, done) = set_with_ttl over_soft_trigger (store_of s1.store) now_s key value ttl in
      (with_calls s1 st, done)

  abbrev pub local_get : ServiceState → (now_s : ℕ) → Bytes → ServiceState × Option Bytes
  local_get s now_s key =
      let s1 = ensure_started entry_bytes s in
      let (st, value) = get (store_of s1.store) now_s key in (with_calls s1 st, value)

  unfoldable pub serve_call : ServiceState → ServiceCall → ServiceState
  serve_call s (starts c budget) = start_service c budget s
  serve_call s (local_call (sets now_s key value)) = (local_set s now_s key value).0
  serve_call s (local_call (sets_with_ttl now_s key value ttl)) =
      (local_set_with_ttl s now_s key value ttl).0
  serve_call s (local_call (gets now_s key)) = (local_get s now_s key).0
  serve_call s (counts_set forwarded) = record_set s forwarded
  serve_call s counts_miss = record_cache_miss s
  serve_call s (times_get latency_us) = record_get_latency s latency_us
  serve_call s (times_set latency_us) = record_set_latency s latency_us

  unfoldable pub serve_calls : ServiceState → List ServiceCall → ServiceState
  serve_calls s [] = s
  serve_calls s (c ∷ calls) = serve_calls (serve_call s c) calls
