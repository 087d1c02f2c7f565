-- ===== src/Commands/Info.antt =====
-- src/cmd_info.cc: the INFO command, in text and in JSON. The statistics of the shards have been
-- collected; what the code computes in floating point, to print a size, is a parameter.
pub mod Json
pub mod Totals
mod Tests
use shunya_kv.Prelude.{
  ℕ, zero, suc, ◌+◌, ◌*◌, ◌%◌, ◌^◌, ◌<◌, ◌≡◌, refl, ap, sym, ◌∙◌, Bool, true, false, not, ◌&&◌,
  List, [], ◌∷◌, ◌++◌, map, append_assoc, append-nil, arith, ltb, ◌==◌, if◌then◌else◌, length,
}
use shunya_kv.Prelude.Bytes.{Bytes, codes}
use shunya_kv.Resp.Writer.{write_error, write_bulk}
use shunya_kv.Store.Expiry.{ShardStatsSnapshot}
use shunya_kv.Commands.{ieq}

pub record Stats : Type 0 where
  pub total_allocs : ℕ
  pub free_mem : ℕ
  pub allocated_mem : ℕ
  pub total_mem : ℕ
  pub failed_alloc : ℕ
  pub shard_stats : ShardStatsSnapshot

-- `STATS total{}` and the totals beside it start at zero.
abbrev pub no_stats : Stats
no_stats = record {
  total_allocs = 0;
  free_mem = 0;
  allocated_mem = 0;
  total_mem = 0;
  failed_alloc = 0;
  shard_stats = record {
    pool_fallback_allocs = 0;
    pool_available_slots = 0;
    pool_total_slots = 0;
    key_count = 0;
    eviction_count = 0;
    cache_miss = 0;
    probationary_pool_total_slots = 0;
    probationary_pool_used_slots = 0;
    probationary_eviction_count = 0;
  };
}

abbrev pub add64 : ℕ → ℕ → ℕ
add64 a b = (a + b) % 2 ^ 64

-- The totals with one shard's numbers added.
abbrev pub add_stats : Stats → Stats → Stats
add_stats total s = record {
  total_allocs = add64 total.total_allocs s.total_allocs;
  free_mem = add64 total.free_mem s.free_mem;
  allocated_mem = add64 total.allocated_mem s.allocated_mem;
  total_mem = add64 total.total_mem s.total_mem;
  failed_alloc = add64 total.failed_alloc s.failed_alloc;
  shard_stats = record {
    pool_fallback_allocs =
        add64 total.shard_stats.pool_fallback_allocs s.shard_stats.pool_fallback_allocs;
    pool_available_slots =
        add64 total.shard_stats.pool_available_slots s.shard_stats.pool_available_slots;
    pool_total_slots = add64 total.shard_stats.pool_total_slots s.shard_stats.pool_total_slots;
    key_count = add64 total.shard_stats.key_count s.shard_stats.key_count;
    eviction_count = add64 total.shard_stats.eviction_count s.shard_stats.eviction_count;
    cache_miss = add64 total.shard_stats.cache_miss s.shard_stats.cache_miss;
    probationary_pool_total_slots =
        add64 total.shard_stats.probationary_pool_total_slots
          s.shard_stats.probationary_pool_total_slots;
    probationary_pool_used_slots =
        add64 total.shard_stats.probationary_pool_used_slots
          s.shard_stats.probationary_pool_used_slots;
    probationary_eviction_count =
        add64 total.shard_stats.probationary_eviction_count
          s.shard_stats.probationary_eviction_count;
  };
}

abbrev pub unit_name : ℕ → Bytes
unit_name u =
    if u == 0
    then codes "B"
    else if u == 1
    then codes "KB"
    else if u == 2
    then codes "MB"
    else if u == 3
    then codes "GB"
    else codes "TB"

-- `D` is `double`: the number of a size, whether it is at least 1024, its 1024th part, and how it is
-- printed with two digits. `to_sstring` prints whole numbers.
module _ {D : Type 0} (of_size : ℕ → D) (is_large : D → Bool) (part : D → D) (print_2f : D → Bytes)
    (to_sstring : ℕ → Bytes) where
  -- The loop of `format_bytes`, for the units that are left.
  unfoldable pub scale : (left unit : ℕ) → D → D × ℕ
  scale zero unit value = (value, unit)
  scale (suc left) unit value =
      let more = scale left (unit + 1) (part value) in
      if is_large value then more else (value, unit)

  pub format_bytes : ℕ → Bytes
  format_bytes bytes =
      let (value, unit) = scale 4 0 (of_size bytes) in
      let number = if unit == 0 then to_sstring bytes else print_2f value in
      number ++ codes " " ++ unit_name unit ++ codes " (" ++ to_sstring bytes ++ codes " bytes)"

  pub shard_json : (shard : ℕ) → Stats → Bytes
  shard_json shard s =
      codes "{\"shard_id\":"
      ++ to_sstring shard
      ++ codes ",\"allocated_memory\":\""
      ++ format_bytes s.allocated_mem
      ++ codes "\",\"free_memory\":\""
      ++ format_bytes s.free_mem
      ++ codes "\",\"total_memory\":\""
      ++ format_bytes s.total_mem
      ++ codes "\",\"total_allocs\":"
      ++ to_sstring s.total_allocs
      ++ codes ",\"failed_allocs\":"
      ++ to_sstring s.failed_alloc
      ++ codes ",\"pool_total_slots\":"
      ++ to_sstring s.shard_stats.pool_total_slots
      ++ codes ",\"pool_available_slots\":"
      ++ to_sstring s.shard_stats.pool_available_slots
      ++ codes ",\"pool_fallback_allocs\":"
      ++ to_sstring s.shard_stats.pool_fallback_allocs
      ++ codes ",\"key_count\":"
      ++ to_sstring s.shard_stats.key_count
      ++ codes ",\"cache_miss\":"
      ++ to_sstring s.shard_stats.cache_miss
      ++ codes ",\"eviction_count\":"
      ++ to_sstring s.shard_stats.eviction_count
      ++ codes ",\"prob_pool_total_slots\":"
      ++ to_sstring s.shard_stats.probationary_pool_total_slots
      ++ codes ",\"prob_pool_used_slots\":"
      ++ to_sstring s.shard_stats.probationary_pool_used_slots
      ++ codes ",\"prob_pool_eviction_count\":"
      ++ to_sstring s.shard_stats.probationary_eviction_count
      ++ codes "}"

  pub cumulative_json : Stats → Bytes
  cumulative_json t =
      codes "\"shard_cumulative_info\":{"
      ++ codes "\"allocated_memory\":\""
      ++ format_bytes t.allocated_mem
      ++ codes "\",\"free_memory\":\""
      ++ format_bytes t.free_mem
      ++ codes "\",\"total_memory\":\""
      ++ format_bytes t.total_mem
      ++ codes "\",\"total_allocs\":"
      ++ to_sstring t.total_allocs
      ++ codes ",\"failed_allocs\":"
      ++ to_sstring t.failed_alloc
      ++ codes ",\"pool_total_slots\":"
      ++ to_sstring t.shard_stats.pool_total_slots
      ++ codes ",\"pool_available_slots\":"
      ++ to_sstring t.shard_stats.pool_available_slots
      ++ codes ",\"pool_fallback_allocs\":"
      ++ to_sstring t.shard_stats.pool_fallback_allocs
      ++ codes ",\"key_count\":"
      ++ to_sstring t.shard_stats.key_count
      ++ codes ",\"cache_miss\":"
      ++ to_sstring t.shard_stats.cache_miss
      ++ codes ",\"eviction_count\":"
      ++ to_sstring t.shard_stats.eviction_count
      ++ codes ",\"prob_pool_total_slots\":"
      ++ to_sstring t.shard_stats.probationary_pool_total_slots
      ++ codes ",\"prob_pool_used_slots\":"
      ++ to_sstring t.shard_stats.probationary_pool_used_slots
      ++ codes ",\"prob_pool_eviction_count\":"
      ++ to_sstring t.shard_stats.probationary_eviction_count
      ++ codes "}"

  -- The loop of `fetchJsonInfo`, from shard `shard` on.
  pub json_loop : (shard : ℕ) → (total : Stats) → (json : Bytes) → List Stats → Stats × Bytes
  json_loop shard total json [] = (total, json)
  json_loop shard total json (s ∷ per_shard) =
      let comma = if ltb 0 shard then json ++ codes "," else json in
      json_loop (shard + 1) (add_stats total s) (comma ++ shard_json shard s) per_shard

  pub fetch_json_info : List Stats → Bytes
  fetch_json_info per_shard =
      let (total, json) = json_loop 0 no_stats (codes "{" ++ codes "\"shard_info\":[") per_shard in
      ((json ++ codes "],") ++ cumulative_json total) ++ codes "}"

  pub shard_text : (shard : ℕ) → Stats → Bytes
  shard_text shard s =
      codes "shard_no: "
      ++ to_sstring shard
      ++ codes "\nallocated_memory: "
      ++ format_bytes s.allocated_mem
      ++ codes "\nfree_memory: "
      ++ format_bytes s.free_mem
      ++ codes "\ntotal_memory: "
      ++ format_bytes s.total_mem
      ++ codes "\ntotal_allocs: "
      ++ to_sstring s.total_allocs
      ++ codes "\nfailed_allocs: "
      ++ to_sstring s.failed_alloc
      ++ codes "\npool_total_slots: "
      ++ to_sstring s.shard_stats.pool_total_slots
      ++ codes "\npool_available_slots: "
      ++ to_sstring s.shard_stats.pool_available_slots
      ++ codes "\npool_fallback_allocs: "
      ++ to_sstring s.shard_stats.pool_fallback_allocs
      ++ codes "\nkey_count: "
      ++ to_sstring s.shard_stats.key_count
      ++ codes "\ncache_miss: "
      ++ to_sstring s.shard_stats.cache_miss
      ++ codes "\neviction_count: "
      ++ to_sstring s.shard_stats.eviction_count
      ++ codes "\n\n"

  pub total_text : Stats → Bytes
  total_text t =
      codes "allocated_memory: "
      ++ format_bytes t.allocated_mem
      ++ codes "\nfree_memory: "
      ++ format_bytes t.free_mem
      ++ codes "\ntotal_memory: "
      ++ format_bytes t.total_mem
      ++ codes "\ntotal_allocs: "
      ++ to_sstring t.total_allocs
      ++ codes "\nfailed_allocs: "
      ++ to_sstring t.failed_alloc
      ++ codes "\n"

  -- The loop of `fetchInfo`, which adds up and prints the first five numbers only.
  pub text_loop : (shard : ℕ) → (total : Stats) → (payload : Bytes) → List Stats → Stats × Bytes
  text_loop shard total payload [] = (total, payload)
  text_loop shard total payload (s ∷ per_shard) =
      text_loop (shard + 1) (record (add_stats total s) { shard_stats = total.shard_stats })
        (payload ++ shard_text shard s) per_shard

  pub fetch_info : List Stats → Bytes
  fetch_info per_shard =
      let (total, payload) = text_loop 0 no_stats (codes "desc: shard_info\n") per_shard in
      (payload ++ codes "desc: total_info\n") ++ total_text total

  -- `per_shard` are the numbers that the shards give, in order.
  pub handle_info : (per_shard : List Stats) → List Bytes → Bytes
  handle_info per_shard (name ∷ arg ∷ x ∷ more) =
      write_error [] (codes "ERR wrong number of arguements for 'INFO'")
  handle_info per_shard (name ∷ arg ∷ []) =
      if not (ieq arg (codes "JSON"))
      then write_error [] (codes "Invalid sub arg for 'INFO'")
      else write_bulk to_sstring [] (fetch_json_info per_shard)
  handle_info per_shard cmd = write_bulk to_sstring [] (fetch_info per_shard)
