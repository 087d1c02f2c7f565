-- ===== src/Commands/Info/Totals.antt =====
-- What INFO JSON of src/cmd_info.cc answers, without its loop.
use shunya_kv.Prelude.{
  ℕ, ◌+◌, ◌%◌, ◌^◌, ◌<◌, ◌≡◌, refl, ap, sym, ◌∙◌, Bool, true, List, [], ◌∷◌, ◌++◌, append_assoc,
  append-nil, arith, ltb,
}
use shunya_kv.Prelude.Bytes.{Bytes, codes}
use shunya_kv.Resp.Writer.{write_bulk}
use shunya_kv.Commands.{ieq}
use shunya_kv.Commands.Info.Json.{
  number, members, join, print_object, shard_json-print_object, cumulative_json-print_object,
}
use shunya_kv.Commands.Info.{
  Stats, no_stats, add64, add_stats, json_loop, fetch_json_info, handle_info,
}

-- The sum of a number over the shards, and its value in 64 bits.
abbrev pub sum_of : (Stats → ℕ) → List Stats → ℕ
sum_of f [] = 0
sum_of f (s ∷ l) = f s + sum_of f l

abbrev pub total_of : (Stats → ℕ) → List Stats → ℕ
total_of f l = sum_of f l % 2 ^ 64

abbrev pub totals : List Stats → Stats
totals l = record {
  total_allocs = total_of (λ s. s.total_allocs) l;
  free_mem = total_of (λ s. s.free_mem) l;
  allocated_mem = total_of (λ s. s.allocated_mem) l;
  total_mem = total_of (λ s. s.total_mem) l;
  failed_alloc = total_of (λ s. s.failed_alloc) l;
  shard_stats = record {
    pool_fallback_allocs = total_of (λ s. s.shard_stats.pool_fallback_allocs) l;
    pool_available_slots = total_of (λ s. s.shard_stats.pool_available_slots) l;
    pool_total_slots = total_of (λ s. s.shard_stats.pool_total_slots) l;
    key_count = total_of (λ s. s.shard_stats.key_count) l;
    eviction_count = total_of (λ s. s.shard_stats.eviction_count) l;
    cache_miss = total_of (λ s. s.shard_stats.cache_miss) l;
    probationary_pool_total_slots = total_of (λ s. s.shard_stats.probationary_pool_total_slots) l;
    probationary_pool_used_slots = total_of (λ s. s.shard_stats.probationary_pool_used_slots) l;
    probationary_eviction_count = total_of (λ s. s.shard_stats.probationary_eviction_count) l;
  };
}

add_all : Stats → List Stats → Stats
add_all t [] = t
add_all t (s ∷ l) = add_all (add_stats t s) l

add_all-total :
    (f : Stats → ℕ)
    → ((t s : Stats) → f (add_stats t s) ≡ add64 (f t) (f s))
    → (l : List Stats) (t : Stats) → f t < 2 ^ 64
    → f (add_all t l) ≡ (f t + sum_of f l) % 2 ^ 64
unfolding add_all
add_all-total f step [] t low = omega (arith, low)
add_all-total f step (s ∷ l) t low =
    omega (arith, add_all-total f step l (add_stats t s) (omega (arith, step t s)), step t s)

add_all-totals : (l : List Stats) → add_all no_stats l ≡ totals l
add_all-totals l = ground (
  arith,
  add_all-total (λ s. s.total_allocs) (λ t s. refl) l no_stats (omega arith),
  add_all-total (λ s. s.free_mem) (λ t s. refl) l no_stats (omega arith),
  add_all-total (λ s. s.allocated_mem) (λ t s. refl) l no_stats (omega arith),
  add_all-total (λ s. s.total_mem) (λ t s. refl) l no_stats (omega arith),
  add_all-total (λ s. s.failed_alloc) (λ t s. refl) l no_stats (omega arith),
  add_all-total (λ s. s.shard_stats.pool_fallback_allocs) (λ t s. refl) l no_stats (omega arith),
  add_all-total (λ s. s.shard_stats.pool_available_slots) (λ t s. refl) l no_stats (omega arith),
  add_all-total (λ s. s.shard_stats.pool_total_slots) (λ t s. refl) l no_stats (omega arith),
  add_all-total (λ s. s.shard_stats.key_count) (λ t s. refl) l no_stats (omega arith),
  add_all-total (λ s. s.shard_stats.eviction_count) (λ t s. refl) l no_stats (omega arith),
  add_all-total (λ s. s.shard_stats.cache_miss) (λ t s. refl) l no_stats (omega arith),
  add_all-total (λ s. s.shard_stats.probationary_pool_total_slots) (λ t s. refl) l no_stats
      (omega arith),
  add_all-total (λ s. s.shard_stats.probationary_pool_used_slots) (λ t s. refl) l no_stats
      (omega arith),
  add_all-total (λ s. s.shard_stats.probationary_eviction_count) (λ t s. refl) l no_stats
      (omega arith),
)

abbrev pub json_head : Bytes
json_head = codes "{" ++ codes "\"shard_info\":["

module _ {D : Type 0} (of_size : ℕ → D) (is_large : D → Bool) (part : D → D) (print_2f : D → Bytes)
    (to_sstring : ℕ → Bytes) where
  abbrev object : ℕ → Stats → Bytes
  object shard s =
      print_object of_size is_large part print_2f to_sstring
        ((codes "shard_id", number shard) ∷ members s)

  -- The objects of the shards, numbered from `shard` on.
  abbrev pub objects : (shard : ℕ) → List Stats → List Bytes
  objects shard [] = []
  objects shard (s ∷ l) = object shard s ∷ objects (shard + 1) l

  commas : List Bytes → Bytes
  commas [] = []
  commas (x ∷ l) = codes "," ++ x ++ commas l

  join-commas : (x : Bytes) (l : List Bytes) → join (codes ",") (x ∷ l) ≡ x ++ commas l
  unfolding commas
  join-commas x [] = sym (append-nil x)
  join-commas x (y ∷ l) =
      ap (λ r. x ++ codes "," ++ r) (join-commas y l) ∙ append_assoc x (codes ",") (y ++ commas l)

  regroup : (a b c : Bytes) → ((a ++ codes ",") ++ b) ++ c ≡ a ++ (codes "," ++ b ++ c)
  regroup a b c =
      append_assoc (a ++ codes ",") b c
      ∙ append_assoc a (codes ",") (b ++ c)
      ∙ ap (λ r. a ++ r) (sym (append_assoc (codes ",") b c))

  json_loop-next :
      (l : List Stats) (shard : ℕ) (t : Stats) (json : Bytes)
      → 0 < shard
      → json_loop of_size is_large part print_2f to_sstring shard t json l
        ≡ (add_all t l, json ++ commas (objects shard l))
  unfolding json_loop commas add_all
  json_loop-next [] shard t json h = ap (λ j. (t, j)) (sym (append-nil json))
  json_loop-next (s ∷ l) shard t json h =
      let later : ltb 0 shard ≡ true = ground (arith, h) in
      rw
        (
          json_loop,
          later,
          shard_json-print_object of_size is_large part print_2f to_sstring shard s,
        )
        (json_loop-next l (shard + 1) (add_stats t s) ((json ++ codes ",") ++ object shard s)
            (omega arith)
          ∙ ap (λ j. (add_all (add_stats t s) l, j))
              (regroup json (object shard s) (commas (objects (shard + 1) l))))

  json_loop_all :
      (l : List Stats)
      → json_loop of_size is_large part print_2f to_sstring 0 no_stats json_head l
        ≡ (totals l, json_head ++ join (codes ",") (objects 0 l))
  unfolding json_loop add_all
  json_loop_all [] = ap (λ j. (no_stats, j)) (sym (append-nil json_head))
  json_loop_all (s ∷ l) =
      let first = object 0 s in
      let sums : add_all (add_stats no_stats s) l ≡ totals (s ∷ l) = add_all-totals (s ∷ l) in
      rw (json_loop, shard_json-print_object of_size is_large part print_2f to_sstring 0 s)
        (json_loop-next l 1 (add_stats no_stats s) (json_head ++ first) (omega arith)
          ∙ ap (λ t. (t, (json_head ++ first) ++ commas (objects 1 l))) sums
          ∙ ap (λ j. (totals (s ∷ l), j))
              (append_assoc json_head first (commas (objects 1 l))
                ∙ ap (λ r. json_head ++ r) (sym (join-commas first (objects 1 l)))))

  -- INFO with the argument JSON, in letters of any case, is answered with one bulk string: an object
  -- that holds the list of the shards' objects, numbered from 0 and with commas between them, and the
  -- object of the totals, each of which is the sum of the shards' numbers in 64 bits. Each object is
  -- printed member by member, with commas between the members, from the table `members` of names and
  -- numbers; numbers of bytes are printed by `format_bytes`, in quotes.
  pub handle_info-json :
      (per_shard : List Stats) (name arg : Bytes)
      → ieq arg (codes "JSON") ≡ true
      → handle_info of_size is_large part print_2f to_sstring per_shard (name ∷ arg ∷ [])
        ≡ write_bulk to_sstring [] (
            json_head
            ++ join (codes ",") (objects 0 per_shard)
            ++ codes "],\"shard_cumulative_info\":"
            ++ print_object of_size is_large part print_2f to_sstring (members (totals per_shard))
            ++ codes "}")
  unfolding handle_info fetch_json_info
  handle_info-json per_shard name arg h =
      rw
        (
          handle_info,
          h,
          json_loop_all per_shard,
          cumulative_json-print_object of_size is_large part print_2f to_sstring (totals per_shard),
        )
        (ap (write_bulk to_sstring []) (simp append_assoc))
