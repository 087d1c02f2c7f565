-- ===== src/Store/Start.antt =====
-- The start and the stop of `store` in src/kv_store.cc.
use shunya_kv.Prelude.{ℕ, Bool, true, false, [], if◌then◌else◌}
use shunya_kv.Pool.Init.{PoolConfig, PoolState, fresh_pool, empty_sieve, init}
use shunya_kv.Store.{Shelf, Store}

-- `store` before and after its start: `has_policy` says that the sieve policy has been made.
pub record StoreState : Type 0 where
  pub shelf : Shelf
  pub entry_pool : PoolState
  pub has_policy : Bool

abbrev pub fresh_store : StoreState
fresh_store = record {
  shelf = record { map = []; pool_fallback_allocs = 0; eviction_count = 0 };
  entry_pool = fresh_pool 0;
  has_policy = false;
}

-- The calls of a store work on this.
abbrev pub store_of : StoreState → Store
store_of s = record { shelf = s.shelf; entry_pool = s.entry_pool.entries }

abbrev pub start_store : PoolConfig → (budget : ℕ) → StoreState → StoreState
start_store c budget s =
    let policy = if s.has_policy then s.entry_pool.entries.sieve else empty_sieve budget in
    record s { entry_pool = init c policy s.entry_pool; has_policy = true }

-- The map is emptied, which destroys its entries.
abbrev pub stop_store : StoreState → StoreState
stop_store s = record s { shelf = record s.shelf { map = [] } }
