-- ===== src/Commands/Info/Json.antt =====
-- The objects that INFO JSON of src/cmd_info.cc prints, as tables of names and numbers.
use shunya_kv.Prelude.{ℕ, ◌≡◌, List, [], ◌∷◌, ◌++◌, map, append_assoc, Bool}
use shunya_kv.Prelude.Bytes.{Bytes, codes}
use shunya_kv.Commands.Info.{Stats, format_bytes, shard_json, cumulative_json}

-- A number is printed as it is, a number of bytes as the text that `format_bytes` makes.
pub data Value : Type 0 where
  number bytes : ℕ → Value

abbrev pub Member : Type 0
Member = Bytes × Value

-- The members of an object about one shard or about all of them.
abbrev pub members : Stats → List Member
members s =
    (codes "allocated_memory", bytes s.allocated_mem)
    ∷ (codes "free_memory", bytes s.free_mem)
    ∷ (codes "total_memory", bytes s.total_mem)
    ∷ (codes "total_allocs", number s.total_allocs)
    ∷ (codes "failed_allocs", number s.failed_alloc)
    ∷ (codes "pool_total_slots", number s.shard_stats.pool_total_slots)
    ∷ (codes "pool_available_slots", number s.shard_stats.pool_available_slots)
    ∷ (codes "pool_fallback_allocs", number s.shard_stats.pool_fallback_allocs)
    ∷ (codes "key_count", number s.shard_stats.key_count)
    ∷ (codes "cache_miss", number s.shard_stats.cache_miss)
    ∷ (codes "eviction_count", number s.shard_stats.eviction_count)
    ∷ (codes "prob_pool_total_slots", number s.shard_stats.probationary_pool_total_slots)
    ∷ (codes "prob_pool_used_slots", number s.shard_stats.probationary_pool_used_slots)
    ∷ (codes "prob_pool_eviction_count", number s.shard_stats.probationary_eviction_count)
    ∷ []

-- Texts with a separator between them.
abbrev pub join : Bytes → List Bytes → Bytes
join sep [] = []
join sep (x ∷ []) = x
join sep (x ∷ y ∷ l) = x ++ sep ++ join sep (y ∷ l)

module _ {D : Type 0} (of_size : ℕ → D) (is_large : D → Bool) (part : D → D) (print_2f : D → Bytes)
    (to_sstring : ℕ → Bytes) where
  abbrev pub print_value : Value → Bytes
  print_value (number n) = to_sstring n
  print_value (bytes n) =
      codes "\"" ++ format_bytes of_size is_large part print_2f to_sstring n ++ codes "\""

  abbrev pub print_member : Member → Bytes
  print_member (name, v) = codes "\"" ++ name ++ codes "\":" ++ print_value v

  abbrev pub print_object : List Member → Bytes
  print_object ms = codes "{" ++ join (codes ",") (map print_member ms) ++ codes "}"

  -- The object of a shard.
  pub shard_json-print_object :
      (shard : ℕ) (s : Stats)
      → shard_json of_size is_large part print_2f to_sstring shard s
        ≡ print_object ((codes "shard_id", number shard) ∷ members s)
  unfolding shard_json
  shard_json-print_object shard s = simp append_assoc

  -- The object of the totals, with its name.
  pub cumulative_json-print_object :
      (t : Stats)
      → cumulative_json of_size is_large part print_2f to_sstring t
        ≡ codes "\"shard_cumulative_info\":" ++ print_object (members t)
  unfolding cumulative_json
  cumulative_json-print_object t = simp append_assoc
