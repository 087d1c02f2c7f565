-- ===== src/Store.antt =====
-- src/kv_store.cc: `store`, the map of a shard with its entry pool and its statistics. The absl map is
-- an association list. A call runs to its end in one step: the yields are left out.
pub mod Ownership
pub mod Taken
pub mod Landed
pub mod Put
pub mod Calls
pub mod Places
pub mod Placement
pub mod Runs
pub mod Start
pub mod Started
pub mod Service
pub mod Expiry
mod Tests
use shunya_kv.Prelude.{
  ℕ, zero, suc, ◌+◌, ◌%◌, ◌^◌, Bool, true, false, not, ◌&&◌, Option, none, some, List, [], ◌∷◌,
  ◌++◌, leb, ◌==◌, if◌then◌else◌, length,
}
use shunya_kv.Prelude.Bytes.{Bytes, same_bytes}
use shunya_kv.Ttl.{Entry, Memory, write, update_from, is_sanctuary}
use shunya_kv.Eviction.{on_erase, on_hit, evict}
use shunya_kv.Pool.{
  Pool, inc64, get_available_slots, get_used_slots, get_total_slots, acquire, release,
  promote_to_sanctuary,
}

abbrev pub Map : Type 0
Map = List (Bytes × ℕ)

-- `_map.find`
unfoldable pub find : Map → Bytes → Option ℕ
find [] k = none
find ((k', e) ∷ m) k = if same_bytes k' k then some e else find m k

-- The map without a key: what `_map.extract` leaves.
unfoldable pub without : Map → Bytes → Map
without [] k = []
without ((k', e) ∷ m) k = if same_bytes k' k then m else (k', e) ∷ without m k

-- The map and the counters of `shard_stats` that the store's own calls change.
pub record Shelf : Type 0 where
  pub map : Map
  pub pool_fallback_allocs : ℕ
  pub eviction_count : ℕ

pub record Store : Type 0 where
  pub shelf : Shelf
  pub entry_pool : Pool

-- One victim's key: its entry is extracted from the map, released and counted.
abbrev pub evict_key : Shelf → Pool → Bytes → Shelf × Pool
evict_key sh s k = elim (find sh.map k) [
  | none ↦ (sh, s)
  | some e ↦ (
    record sh { map = without sh.map k; eviction_count = inc64 sh.eviction_count },
    release s (some e),
  )
]

-- The body of the eviction callback, and of the loop of `check_memory_and_evict`.
unfoldable pub evict_keys : Shelf → Pool → List Bytes → Shelf × Pool
evict_keys sh s [] = (sh, s)
evict_keys sh s (k ∷ l) = let (sh', s') = evict_key sh s k in evict_keys sh' s' l

-- `try_emplace` of an acquired entry whose fields have been written, and what follows for a key that
-- is in the map already.
abbrev pub emplace : Shelf → Pool → (e : ℕ) → Bytes → Entry → (update_ttl : Bool) → Store
emplace sh s e key written update_ttl =
    let s2 = record s { mem = write s.mem e written } in
    elim (find sh.map key) [
      | none ↦ record { shelf = record sh { map = (key, e) ∷ sh.map }; entry_pool = s2 }
      | some old ↦
          let s3 = record s2 {
            mem = write s2.mem old (update_from (s2.mem old) (s2.mem e) update_ttl);
          } in
          record { shelf = sh; entry_pool = release (promote_to_sanctuary s3 old) (some e) }
    ]

abbrev pub count_fallback : Shelf → Pool → Shelf
count_fallback sh s =
    if get_available_slots s == 0
    then record sh { pool_fallback_allocs = inc64 sh.pool_fallback_allocs }
    else sh

-- The calls of `set` and `set_with_ttl` up to the memory check, for an entry's fields to write.
unfoldable pub put : Store → Bytes → (write_fields : Entry → Entry) → (update_ttl : Bool) → Store
put st key write_fields update_ttl =
    let (sh, s, e) = acquire evict_keys (count_fallback st.shelf st.entry_pool) st.entry_pool in
    emplace sh s e key (write_fields (s.mem e)) update_ttl

abbrev pub plain_fields : (key value : Bytes) → Entry → Entry
plain_fields key value e = record e { key = key; value = value }

abbrev pub ttl_fields : (now_s ttl : ℕ) → (key value : Bytes) → Entry → Entry
ttl_fields now_s ttl key value e = record e {
  key = key;
  value = value;
  expires_at = (now_s + ttl) % 2 ^ 64;
}

-- The comparison of the pool's usage, used slots over all slots, with `soft.trigger` is in floating
-- point: it is a parameter.
module _ (over_soft_trigger : (used_slots total_slots : ℕ) → Bool) where
  unfoldable pub check_memory_and_evict : Store → (now_s : ℕ) → Store
  check_memory_and_evict st now_s =
      let s = st.entry_pool in
      let (mem, sieve, victims) = evict s.mem s.sieve now_s in
      let (sh', s') = evict_keys st.shelf (record s { mem = mem; sieve = sieve }) victims in
      if get_total_slots s == 0
      then st
      else if over_soft_trigger (get_used_slots s) (get_total_slots s)
      then record { shelf = sh'; entry_pool = s' }
      else st

  unfoldable pub set : Store → (now_s : ℕ) → (key value : Bytes) → Store × Bool
  set st now_s key value =
      (check_memory_and_evict (put st key (plain_fields key value) false) now_s, true)

  unfoldable pub set_with_ttl : Store → (now_s : ℕ) → (key value : Bytes) → (ttl : ℕ) → Store × Bool
  set_with_ttl st now_s key value ttl =
      (check_memory_and_evict (put st key (ttl_fields now_s ttl key value) true) now_s, true)

-- An entry past its time is unlinked, extracted and released; another one is promoted and marked.
unfoldable pub get : Store → (now_s : ℕ) → Bytes → Store × Option Bytes
get st now_s key = elim (find st.shelf.map key) [
  | none ↦ (st, none)
  | some e ↦
      let s = st.entry_pool in
      let expires_at = (s.mem e).expires_at in
      let promoted = promote_to_sanctuary s e in
      if not (expires_at == 0) && leb expires_at now_s
      then (
        record {
          shelf = record st.shelf { map = without st.shelf.map key };
          entry_pool = release (record s { sieve = on_erase s.sieve e }) (some e);
        },
        none,
      )
      else (
        record st { entry_pool = record promoted { mem = on_hit promoted.mem e } },
        some (promoted.mem e).value,
      )
]
