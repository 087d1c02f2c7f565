-- ===== src/Config.antt =====
-- src/config_loader.cc: how a configuration file is read into a `db_config` (include/dbconfig.hh).
pub mod Lines
pub mod Port
mod Tests
use shunya_kv.Prelude.{
  ℕ, ◌%◌, ◌^◌, zero, suc, ◌+◌, ◌-◌, ◌^◌, Bool, true, false, not, ◌&&◌, ◌||◌, Option, none, some,
  List, [], ◌∷◌, ◌++◌, leb, ltb, ◌==◌, if◌then◌else◌, length, take, drop,
}
use shunya_kv.Prelude.Bytes.{Bytes, codes, byte_at, find_byte, same_bytes, lf}
use shunya_kv.Resp.Chars.{from_chars, from_chars_u32, whole}

pub data EvictionPolicy : Type 0 where
  sieve : EvictionPolicy

-- The members that the loader writes, those of the nested structs side by side. `D` is `double`.
pub record DbConfig (D : Type 0) : Type 0 where
  pub policy : EvictionPolicy
  pub soft_trigger : D
  pub soft_stop : D
  pub soft_budget : ℕ
  pub soft_throttle : Bool
  pub prob_evict_trigger : D
  pub prob_evict_budget : ℕ
  pub memory_reserve_percentage : D
  pub pool_max_memory_percent : D
  pub page_size_goal : ℕ
  pub key_reserve : ℕ
  pub prob_pool_size_percent : D
  pub db_port : ℕ
  pub hash : Bytes
  pub send_shard_details_on_connect : Bool

-- The characters that `trim` leaves out: space, tab and carriage return.
abbrev pub is_blank : ℕ → Bool
is_blank c = c == 32 || c == 9 || c == 13

-- `find_first_not_of` and `find_last_not_of`.
unfoldable pub first_not_blank : Bytes → Option ℕ
first_not_blank [] = none
first_not_blank (c ∷ s) =
    if not (is_blank c)
    then some 0
    else elim (first_not_blank s) [ none ↦ none | some i ↦ some (suc i) ]

unfoldable pub last_not_blank : Bytes → Option ℕ
last_not_blank [] = none
last_not_blank (c ∷ s) = elim (last_not_blank s) [
  | some i ↦ some (suc i)
  | none ↦ if is_blank c then none else some 0
]

unfoldable pub trim : Bytes → Bytes
trim s = elim (first_not_blank s) [
  | none ↦ []
  | some begin ↦ elim (last_not_blank s) [
    | none ↦ []
    | some end ↦ take (end - begin + 1) (drop begin s)
  ]
]

unfoldable pub one_of : List Bytes → Bytes → Bool
one_of [] v = false
one_of (w ∷ words) v = same_bytes v w || one_of words v

abbrev pub true_words : List Bytes
true_words =
    codes "1"
    ∷ codes "true"
    ∷ codes "TRUE"
    ∷ codes "on"
    ∷ codes "ON"
    ∷ codes "yes"
    ∷ codes "YES"
    ∷ []

abbrev pub false_words : List Bytes
false_words =
    codes "0"
    ∷ codes "false"
    ∷ codes "FALSE"
    ∷ codes "off"
    ∷ codes "OFF"
    ∷ codes "no"
    ∷ codes "NO"
    ∷ []

unfoldable pub parse_bool : Bytes → Option Bool
parse_bool v =
    if one_of true_words v then some true else if one_of false_words v then some false else none

unfoldable pub maybe_unquote : Bytes → Bytes
maybe_unquote v =
    if leb 2 (length v) && byte_at v 0 == b'"' && byte_at v (length v - 1) == b'"'
    then take (length v - 2) (drop 1 v)
    else v

abbrev pub parse_u64 : Bytes → Option ℕ
parse_u64 v = whole (from_chars v)

unfoldable pub parse_policy : Bytes → Option EvictionPolicy
parse_policy v =
    if one_of (codes "sieve" ∷ codes "SIEVE" ∷ codes "Sieve" ∷ []) v then some sieve else none

-- A port that is no `unsigned`, or is above 65535, is passed over; the cast to `uint16_t` is written out.
unfoldable pub parse_port : Bytes → Option ℕ
parse_port v = elim (whole (from_chars_u32 v)) [
  | none ↦ none
  | some parsed ↦ if leb parsed 65535 then some (parsed % 2 ^ 16) else none
]

-- What a line comes to: nothing, or a key and its value.
unfoldable pub cut_comment : Bytes → Bytes
cut_comment value = elim (find_byte b'#' value) [
  | none ↦ value
  | some comment ↦ trim (take comment value)
]

unfoldable pub setting : Bytes → Option (Bytes × Bytes)
setting line =
    let sv = trim line in
    if length sv == 0 || byte_at sv 0 == b'#' then none else elim (find_byte b'=' sv) [
      | none ↦ none
      | some eq ↦
          let value = cut_comment (trim (drop (eq + 1) sv)) in
          if length value == 0 then none else some (trim (take eq sv), maybe_unquote value)
    ]

-- `std::getline`: the lines without their newlines; behind the last newline there is a line only if
-- something stands there.
unfoldable pub getlines : Bytes → List Bytes
getlines [] = []
getlines (c ∷ s) =
    let lines = getlines s in
    if c == lf
    then [] ∷ lines
    else elim lines [ [] ↦ (c ∷ []) ∷ [] | line ∷ more ↦ (c ∷ line) ∷ more ]

-- A value that cannot be parsed leaves the configuration as it is.
abbrev pub assign : {D A : Type 0} → Option A → DbConfig D → (A → DbConfig D) → DbConfig D
assign none cfg f = cfg
assign (some v) cfg f = f v

-- The file that is opened: the path itself, or for the default name the one above or two above.
abbrev pub first_of : Option Bytes → Option Bytes → Option Bytes
first_of none b = b
first_of (some a) b = some a

unfoldable pub selected : (open_file : Bytes → Option Bytes) → Bytes → Option Bytes
selected open_file path = first_of (open_file path) (
    if same_bytes path (codes "config.conf")
    then first_of (open_file (codes "../config.conf")) (open_file (codes "../../config.conf"))
    else none)

-- `std::stod` is a parameter: the number at the front of a text and how many characters it took, or
-- nothing where it throws.
module _ {D : Type 0} (stod : Bytes → Option (D × ℕ)) where
  abbrev pub parse_double : Bytes → Option D
  parse_double v = elim (stod v) [
    | none ↦ none
    | some (parsed, idx) ↦ if idx == length v then some parsed else none
  ]

  unfoldable pub apply : DbConfig D → Bytes × Bytes → DbConfig D
  apply cfg (key, value) =
      if one_of (codes "db_port" ∷ codes "base_port" ∷ codes "port" ∷ []) key
      then assign (parse_port value) cfg (λ v. record cfg { db_port = v })
      else if same_bytes key (codes "hash")
      then record cfg { hash = value }
      else if same_bytes key (codes "policy")
      then assign (parse_policy value) cfg (λ v. record cfg { policy = v })
      else if same_bytes key (codes "soft_trigger")
      then assign (parse_double value) cfg (λ v. record cfg { soft_trigger = v })
      else if same_bytes key (codes "soft_stop")
      then assign (parse_double value) cfg (λ v. record cfg { soft_stop = v })
      else if same_bytes key (codes "soft_budget")
      then assign (parse_u64 value) cfg (λ v. record cfg { soft_budget = v })
      else if same_bytes key (codes "soft_throttle")
      then assign (parse_bool value) cfg (λ v. record cfg { soft_throttle = false })
      else if same_bytes key (codes "send_shard_details_on_connect")
      then assign (parse_bool value) cfg (λ v. record cfg { send_shard_details_on_connect = v })
      else if same_bytes key (codes "memory_reserve_percentage")
      then assign (parse_double value) cfg (λ v. record cfg { memory_reserve_percentage = v })
      else if same_bytes key (codes "pool_max_memory_percent")
      then assign (parse_double value) cfg (λ v. record cfg { pool_max_memory_percent = v })
      else if same_bytes key (codes "page_size_goal")
      then assign (parse_u64 value) cfg (λ v. record cfg { page_size_goal = v })
      else if same_bytes key (codes "key_reserve")
      then assign (parse_u64 value) cfg (λ v. record cfg { key_reserve = v })
      else if same_bytes key (codes "probationary_pool_size")
      then assign (parse_double value) cfg (λ v. record cfg { prob_pool_size_percent = v })
      else if same_bytes key (codes "hard_trigger")
      then assign (parse_double value) cfg (λ v. record cfg { prob_evict_trigger = v })
      else if same_bytes key (codes "hard_budget")
      then assign (parse_u64 value) cfg (λ v. record cfg { prob_evict_budget = v })
      else cfg

  unfoldable pub load_line : DbConfig D → Bytes → DbConfig D
  load_line cfg line = elim (setting line) [ none ↦ cfg | some entry ↦ apply cfg entry ]

  unfoldable pub load_lines : DbConfig D → List Bytes → DbConfig D
  load_lines cfg [] = cfg
  load_lines cfg (line ∷ lines) = load_lines (load_line cfg line) lines

  -- `open_file` gives the bytes of a file that can be opened.
  unfoldable pub load_config_file :
      (open_file : Bytes → Option Bytes) → DbConfig D → Bytes → DbConfig D
  load_config_file open_file cfg path = elim (selected open_file path) [
    | none ↦ cfg
    | some text ↦ load_lines cfg (getlines text)
  ]
