-- ===== src/Store/Expiry.antt =====
-- `evict_ttl_keys` of src/kv_store.cc with the heap of include/ttl/heap_node.hh, and the statistics
-- snapshot. The priority queue is the list of its nodes.
use shunya_kv.Prelude.{
  ℕ, zero, suc, ◌≡◌, refl, sym, ap, subst, ◌∙◌, Option, none, some, List, [], ◌∷◌, ◌++◌,
  append_assoc, leb, ltb, ◌==◌, if◌then◌else◌, length, Bool-cases, Option-cases, inl, inr,
}
use shunya_kv.Prelude.Bytes.{Bytes}
use shunya_kv.Prelude.Links.{Distinct, Distinct-middle, Lacks-of_append, Lacks-append}
use shunya_kv.Eviction.{on_erase}
use shunya_kv.Pool.{Pool, release, get_available_slots, get_total_slots}
use shunya_kv.Store.{Shelf, Store, find, without}
use shunya_kv.Store.Ownership.{
  IsOwned, Keeps, entries, Below, find-split, extract-Keeps, same-Keeps, Distinct-insert,
  Below-middle, Below-insert,
}
use shunya_kv.Store.Calls.{Owned}

pub record HeapNode : Type 0 where
  pub key : Bytes
  pub expires_at : ℕ
  pub ver : ℕ

-- The node that `top` gives and what `pop` leaves, for the order `MinExpiry`.
unfoldable pub pop_min : List HeapNode → Option (HeapNode × List HeapNode)
pop_min [] = none
pop_min (n ∷ q) = elim (pop_min q) [
  | none ↦ some (n, [])
  | some r ↦ if ltb r.0.expires_at n.expires_at then some (r.0, n ∷ r.1) else some (n, q)
]

-- One expired node: its entry is released if it still has the node's version, and else put back.
unfoldable pub expire_node : Store → HeapNode → Store
expire_node st top = elim (find st.shelf.map top.key) [
  | none ↦ st
  | some e ↦
      let s = st.entry_pool in
      let left = without st.shelf.map top.key in
      if (s.mem e).ver == top.ver
      then record {
        shelf = record st.shelf { map = left };
        entry_pool = release (record s { sieve = on_erase s.sieve e }) (some e);
      }
      else record { shelf = record st.shelf { map = (top.key, e) ∷ left }; entry_pool = s }
]

-- The loop, for the budget's rounds.
unfoldable pub evict_ttl_keys : (now budget : ℕ) → Store → List HeapNode → Store × List HeapNode
evict_ttl_keys now zero st pq = (st, pq)
evict_ttl_keys now (suc budget) st pq = elim (pop_min pq) [
  | none ↦ (st, pq)
  | some r ↦
      let rest = evict_ttl_keys now budget (expire_node st r.0) r.1 in
      if leb r.0.expires_at now then rest else (st, pq)
]

-- `shard_stats_snapshot`, in the fields that the store fills in.
pub record ShardStatsSnapshot : Type 0 where
  pub pool_fallback_allocs : ℕ
  pub pool_available_slots : ℕ
  pub pool_total_slots : ℕ
  pub key_count : ℕ
  pub eviction_count : ℕ
  pub cache_miss : ℕ
  pub probationary_pool_total_slots : ℕ
  pub probationary_pool_used_slots : ℕ
  pub probationary_eviction_count : ℕ

abbrev pub snapshot_stats : Store → (cache_miss : ℕ) → ShardStatsSnapshot
snapshot_stats st cache_miss = record {
  pool_fallback_allocs = st.shelf.pool_fallback_allocs;
  pool_available_slots = get_available_slots st.entry_pool;
  pool_total_slots = get_total_slots st.entry_pool;
  key_count = length st.shelf.map;
  eviction_count = st.shelf.eviction_count;
  cache_miss = cache_miss;
  probationary_pool_total_slots = st.entry_pool.prob_pool_max_size;
  probationary_pool_used_slots = st.entry_pool.prob_count;
  probationary_eviction_count = st.entry_pool.prob_eviction_count;
}

reinserted-Owned :
    (sh sh' : Shelf) (s : Pool) (k : Bytes) (e : ℕ)
    → find sh.map k ≡ some e
    → entries sh'.map ≡ e ∷ entries (without sh.map k)
    → IsOwned [] sh s
    → IsOwned [] sh' s
reinserted-Owned sh sh' s k e f m o =
    let (a, b, cut, left) = find-split sh.map k e f in
    let join = sym (append_assoc s.pool a (e ∷ b)) in
    let d = subst Distinct join (subst (λ l. Distinct (s.pool ++ l)) cut o.distinct) in
    let w =
      subst (Below s.next_entry) join (subst (λ l. Below s.next_entry (s.pool ++ l)) cut o.below) in
    let (x, y, rest) = Distinct-middle (s.pool ++ a) e b d in
    let (low, rest') = Below-middle s.next_entry (s.pool ++ a) e b w in
    let (xp, xa) = Lacks-of_append e s.pool a x in
    let part = append_assoc s.pool a b in
    let new : e ∷ (a ++ b) ≡ entries sh'.map = sym (m ∙ ap (◌∷◌ e) left) in
    record {
      distinct =
          subst (λ l. Distinct (s.pool ++ l)) new
            (Distinct-insert s.pool e (a ++ b) xp (Lacks-append e a b xa y)
              (subst Distinct part rest));
      below =
          subst (λ l. Below s.next_entry (s.pool ++ l)) new
            (Below-insert s.next_entry s.pool e (a ++ b) low
              (subst (Below s.next_entry) part rest'));
    }

expire_node-Owned : (st : Store) (top : HeapNode) → Owned st → Owned (expire_node st top)
unfolding expire_node
expire_node-Owned st top o = elim (Option-cases (find st.shelf.map top.key)) [
  | inl f ↦ rw (f, expire_node) o
  | inr (e, f) ↦
      rw (f, expire_node)
        (elim (Bool-cases ((st.entry_pool.mem e).ver == top.ver)) [
          | inl t ↦ rw t (
              Keeps.owned (extract-Keeps st.shelf _ _ top.key e f refl) []
                (Keeps.owned (same-Keeps st.shelf st.entry_pool _ refl refl) [] o))
          | inr t ↦ rw t (reinserted-Owned st.shelf _ st.entry_pool top.key e f refl o)
        ])
]

-- Each entry of a shard stays in the pool or in the map, at one place, through `evict_ttl_keys`,
-- whether the entry of an expired node is gone, has the node's version or has been updated since.
evict_ttl_keys-Owned :
    (now budget : ℕ) (st : Store) (pq : List HeapNode)
    → Owned st
    → Owned (evict_ttl_keys now budget st pq).0
unfolding evict_ttl_keys
evict_ttl_keys-Owned now zero st pq o = o
evict_ttl_keys-Owned now (suc budget) st pq o = elim (Option-cases (pop_min pq)) [
  | inl f ↦ rw (f, evict_ttl_keys) o
  | inr (r, f) ↦
      rw (f, evict_ttl_keys)
        (elim (Bool-cases (leb r.0.expires_at now)) [
          | inl t ↦ rw t (
              evict_ttl_keys-Owned now budget (expire_node st r.0) r.1 (expire_node-Owned st r.0 o))
          | inr t ↦ rw t o
        ])
]
