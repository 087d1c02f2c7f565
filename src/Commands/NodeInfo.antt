-- ===== src/Commands/NodeInfo.antt =====
-- src/cmd_node_info.cc and `parse_u16` of src/node_info_helpers.cc: which answer a NODE_INFO request
-- gets. An answer stands for its JSON text.
use shunya_kv.Prelude.{
  ℕ, ◌-◌, ◌%◌, ◌^◌, ◌≤◌, ◌<◌, ◌≡◌, ◌≢◌, refl, ap, ◌∙◌, Bool, true, false, not, ◌||◌, Option, some,
  List, [], ◌∷◌, ◌++◌, Bool-cases, inl, inr, arith, ◌==◌, ltb, length, if◌then◌else◌, All,
  get_elem?,
}
use shunya_kv.Prelude.Bytes.{Bytes, codes}
use shunya_kv.Routing.{NodeCfg, HashRange, first_sid, compute_hash_ranges, compute_hash}
use shunya_kv.Routing.Ranges.{compute_hash-get_elem?}
use shunya_kv.Resp.Writer.{IsDigit, value, IsDecimal}
use shunya_kv.Commands.{upper, ieq}
use shunya_kv.Resp.Chars.{read_number, read_number_digits}
use shunya_kv.Commands.Names.{ieq-map_upper}

-- A `uint16_t`, or the text of the exception that is thrown.
pub data ShardId : Type 0 where
  throws : Bytes → ShardId
  shard_id : ℕ → ShardId

unfoldable pub all_digits : Bytes → Bool
all_digits [] = true
all_digits (c ∷ s) = if ltb c 48 || ltb 57 c then false else all_digits s

-- A number that does not fit 32 bits is rejected as one that does not fit 16 bits is.
unfoldable pub parse_u16 : Bytes → ShardId
parse_u16 s =
    let invalid = throws (codes "invalid shard id: " ++ s) in
    let out = (read_number 0 s).0 in
    if length s == 0
    then throws (codes "invalid shard id: empty")
    else if not (all_digits s)
    then invalid
    else if ltb 65535 out
    then invalid
    else shard_id out

pub data NodeInfo : Type 0 where
  wrong_arguments : NodeInfo
  all_ranges : Option (List HashRange) → NodeInfo
  smp_count : ℕ → NodeInfo
  one_range : Option HashRange → NodeInfo
  fails : Bytes → NodeInfo

abbrev pub answer_shard : NodeCfg → ShardId → NodeInfo
answer_shard c (throws what) = fails what
answer_shard c (shard_id sid) = one_range (compute_hash c sid)

unfoldable pub handle_node_info : NodeCfg → (this_shard : ℕ) → List Bytes → NodeInfo
handle_node_info c this_shard (name ∷ []) = one_range (compute_hash c (this_shard % 2 ^ 16))
handle_node_info c this_shard (name ∷ arg ∷ []) =
    if ieq arg (codes "RANGES") || ieq arg (codes "MAP")
    then all_ranges (compute_hash_ranges c)
    else if ieq arg (codes "SHARDS")
    then smp_count c.smp
    else answer_shard c (parse_u16 arg)
handle_node_info c this_shard cmd = wrong_arguments

all_digits-true : (s : Bytes) → All IsDigit s → all_digits s ≡ true
unfolding all_digits
all_digits-true [] d = refl
all_digits-true (c ∷ s) d = ground (arith, d.0, all_digits-true s d.1)

parse_u16_digits :
    (s : Bytes) → s ≢ [] → All IsDigit s → value 0 s < 65536 → parse_u16 s ≡ shard_id (value 0 s)
unfolding parse_u16
parse_u16_digits [] ne d low = absurd (ne refl)
parse_u16_digits (c ∷ s) ne d low =
    let r = read_number_digits 0 (c ∷ s) d in
    let t : ltb 65535 (value 0 (c ∷ s)) ≡ false = ground (arith, low) in
    let z : (length (c ∷ s) == 0) ≡ false = ground arith in
    rw (z, all_digits-true (c ∷ s) d, r, t) refl

upper_digit : (c d : ℕ) → IsDigit c → 57 < d → upper c ≢ d
unfolding upper
upper_digit c d h k e = ground (arith, h.0, h.1, k, e)

-- Digits are not a word that begins with a capital letter.
not_a_word :
    (s : Bytes) (d : ℕ) (w : Bytes) → s ≢ [] → All IsDigit s → 57 < upper d → ieq s (d ∷ w) ≡ false
not_a_word [] d w ne h k = absurd (ne refl)
not_a_word (c ∷ s) d w ne h k = elim (Bool-cases (ieq (c ∷ s) (d ∷ w))) [
  | inl t ↦
      let same : upper c ≡ upper d = cc ((ieq-map_upper (c ∷ s) (d ∷ w)).0 t) in
      absurd (upper_digit c (upper d) (h.0) k same)
  | inr t ↦ t
]

-- A NODE_INFO with the printed number of a shard, from the first data shard on and below 2^16, answers
-- with the very range that the announced list has for that shard, and with none where it has none.
pub handle_node_info-to_sstring :
    (to_sstring : ℕ → Bytes) (c : NodeCfg) (this_shard sid : ℕ) (name : Bytes) (rs : List HashRange)
    → IsDecimal to_sstring
    → sid < 65536
    → first_sid c ≤ sid
    → compute_hash_ranges c ≡ some rs
    → handle_node_info c this_shard (name ∷ to_sstring sid ∷ [])
      ≡ one_range (get_elem? rs (sid - first_sid c))
unfolding handle_node_info upper
handle_node_info-to_sstring to_sstring c this_shard sid name rs dec low from e =
    let s = to_sstring sid in
    let word : (d : ℕ) (w : Bytes) → 57 < upper d → ieq s (d ∷ w) ≡ false =
      λ d w. not_a_word s d w (dec.some_digit sid) (dec.digits sid) in
    let ranges = word 82 (codes "ANGES") (omega arith) in
    let map_word = word 77 (codes "AP") (omega arith) in
    let shards = word 83 (codes "HARDS") (omega arith) in
    let small : value 0 s < 65536 = rw (dec.exact sid) low in
    let number =
      parse_u16_digits s (dec.some_digit sid) (dec.digits sid) small
      ∙ ap shard_id (dec.exact sid) in
    rw (ranges, map_word, shards, number) (ap one_range (compute_hash-get_elem? c sid from e))
