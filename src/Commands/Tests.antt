-- ===== src/Commands/Tests.antt =====
-- The commands at concrete requests.
use shunya_kv.Prelude.{ℕ, ◌≡◌, ◌↔◌, refl, Bool, false, List, [], ◌∷◌, map, none, arith}
use shunya_kv.Prelude.Bytes.{Bytes, codes}
use shunya_kv.Resp.Writer.{write_simple, write_bulk}
use shunya_kv.Resp.Writer.Decimal.{print_decimal, print_decimal-IsDecimal}
use shunya_kv.Pool.{Pool, new_entry}
use shunya_kv.Store.{Store}
use shunya_kv.Store.Calls.{Owned}
use shunya_kv.Resp.Chars.{from_chars, read_number}
use shunya_kv.Commands.{
  Node, upper, same_letters, ieq, command_name, handle_request, call, get_command, check_set,
  check_get, check_ttl, accepts, handle_set, handle_get,
}
use shunya_kv.Commands.Names.{handle_request-call}
use shunya_kv.Commands.NodeInfo.{handle_node_info, one_range, handle_node_info-to_sstring}
use shunya_kv.Routing.{NodeCfg, HashRange, first_sid, range_at, ranges_from, compute_hash_ranges}
use shunya_kv.Prelude.{◌-◌, get_elem?}
use shunya_kv.Commands.Calls.{check_set-to_sstring, handle_get-handle_set}

handle_request-call_example :
    (handle_request (record { frame = []; argv = codes "get" ∷ codes "k" ∷ [] }) ≡ call get_command)
    ↔ (map upper (codes "get") ≡ command_name get_command)
handle_request-call_example = handle_request-call [] (codes "get") (codes "k" ∷ []) get_command

check_set-to_sstring_example :
    check_set (codes "SET" ∷ codes "k" ∷ codes "v" ∷ codes "ex" ∷ print_decimal 60 ∷ [])
    ≡ accepts (codes "k") (codes "v") 60
unfolding ieq same_letters upper
check_set-to_sstring_example =
    check_set-to_sstring print_decimal 60 (codes "SET") (codes "k") (codes "v") (codes "ex")
      print_decimal-IsDecimal (omega arith) (omega arith) (λ e. cc) refl

-- Two shards, each with one free entry.
abbrev small_pool : Pool
small_pool = record {
  mem = λ p. new_entry;
  next_entry = 1;
  pool = 0 ∷ [];
  sieve = record { sieve_list = []; hand = none; budget = 1 };
  probation_list = [];
  probation_hand = none;
  max_size = 1;
  prob_pool_max_size = 0;
  prob_threshold = 0;
  reaper_budget = 1;
  prob_count = 0;
  sanc_count = 0;
  prob_eviction_count = 0;
}

abbrev small_store : Store
small_store = record {
  shelf = record { map = []; pool_fallback_allocs = 0; eviction_count = 0 };
  entry_pool = small_pool;
}

abbrev two_shards : Node
two_shards i = record { store = small_store; get_total = 0; get_forwarded = 0; cache_miss = 0 }

small_store-Owned : Owned small_store
small_store-Owned = record { distinct = (tt, tt); below = (omega arith, tt) }

abbrev no_trigger : ℕ → ℕ → Bool
no_trigger used total = false

abbrev high_hash : Bytes → ℕ
high_hash key = 18446744073709551615

abbrev set_request : List Bytes
set_request = codes "SET" ∷ codes "k" ∷ codes "v" ∷ codes "EX" ∷ codes "10" ∷ []

-- The connection of the GET is on shard 0, and the key's owner is shard 1.
handle_get-handle_set_example :
    ((handle_set no_trigger high_hash print_decimal 2 0 two_shards 5 set_request).1
      ≡ write_simple [] (codes "OK"))
    × ((handle_get no_trigger high_hash print_decimal 2 0
          (handle_set no_trigger high_hash print_decimal 2 0 two_shards 5 set_request).0
          0
          7
          (codes "GET" ∷ codes "k" ∷ [])).1
        ≡ write_bulk print_decimal [] (codes "v"))
unfolding check_set check_get check_ttl from_chars read_number ieq same_letters upper
handle_get-handle_set_example =
    handle_get-handle_set no_trigger high_hash print_decimal 2 0 two_shards 5 7 0 10 set_request
      (codes "GET" ∷ codes "k" ∷ []) (codes "k") (codes "v") refl refl (omega arith) (omega arith)
      small_store-Owned refl

-- Three shards without an administrative one.
abbrev three_data_shards : NodeCfg
three_data_shards = record { base_port = 60110; smp = 3; port_offset = 0 }

abbrev announced : List HashRange
unfolding ranges_from range_at first_sid
announced = ranges_from three_data_shards 3 0 3

handle_node_info-to_sstring_example :
    handle_node_info three_data_shards 0 (codes "NODE_INFO" ∷ print_decimal 2 ∷ [])
    ≡ one_range (get_elem? announced (2 - first_sid three_data_shards))
unfolding compute_hash_ranges first_sid announced ranges_from
handle_node_info-to_sstring_example =
    handle_node_info-to_sstring print_decimal three_data_shards 0 2 (codes "NODE_INFO") announced
      print_decimal-IsDecimal (omega arith) (omega arith) refl
