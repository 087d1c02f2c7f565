-- ===== src/Commands/Info/Tests.antt =====
-- The theorem on INFO JSON, applied to two shards; whole numbers stand for `double`.
use shunya_kv.Prelude.{◌/◌, ◌≡◌, refl, List, [], ◌∷◌, ◌++◌, leb, true}
use shunya_kv.Prelude.Bytes.{codes}
use shunya_kv.Resp.Writer.{write_bulk}
use shunya_kv.Resp.Writer.Decimal.{print_decimal}
use shunya_kv.Commands.{ieq, same_letters, upper}
use shunya_kv.Commands.Info.{Stats, no_stats, handle_info}
use shunya_kv.Commands.Info.Json.{members, join, print_object}
use shunya_kv.Commands.Info.Totals.{totals, objects, json_head, handle_info-json}

abbrev two_shards : List Stats
two_shards =
    record no_stats { total_allocs = 7; allocated_mem = 2048 }
    ∷ record no_stats { total_allocs = 5; allocated_mem = 100 }
    ∷ []

json-ieq : ieq (codes "json") (codes "JSON") ≡ true
unfolding ieq same_letters upper
json-ieq = refl

handle_info-json_example :
    handle_info
      (λ n. n)
      (λ n. leb 1024 n)
      (λ n. n / 1024)
      print_decimal
      print_decimal
      two_shards
      (codes "INFO" ∷ codes "json" ∷ [])
    ≡ write_bulk print_decimal [] (
        json_head
        ++ join (codes ",") (
            objects
              (λ n. n)
              (λ n. leb 1024 n)
              (λ n. n / 1024)
              print_decimal
              print_decimal
              0
              two_shards)
        ++ codes "],\"shard_cumulative_info\":"
        ++ print_object
            (λ n. n)
            (λ n. leb 1024 n)
            (λ n. n / 1024)
            print_decimal
            print_decimal
            (members (totals two_shards))
        ++ codes "}")
handle_info-json_example =
    handle_info-json (λ n. n) (λ n. leb 1024 n) (λ n. n / 1024) print_decimal print_decimal
      two_shards (codes "INFO") (codes "json") json-ieq
