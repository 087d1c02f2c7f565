-- ===== src/Resp/Frame.antt =====
-- src/resp/resp_parser.cc: `parse_frame_length` and `parse_command_from_frame`, which look at a whole
-- buffer from its start. Positions are positions in the buffer and `bulk_len` is below 2^63, so that
-- `need` does not wrap.
pub mod Stable
pub mod Items
pub mod Written
mod Tests
use shunya_kv.Prelude.{
  ℕ, zero, suc, ◌+◌, ◌*◌, ◌^◌, ◌||◌, ◌&&◌, not, Bool, Option, none, some, List, [], ◌∷◌, ◌++◌, leb,
  ltb, ◌==◌, if◌then◌else◌, length, take, drop,
}
use shunya_kv.Prelude.Bytes.{Bytes, codes, byte_at, find_byte, cr, lf}
use shunya_kv.Resp.Chars.{from_chars_i64, whole}
use shunya_kv.Resp.Stream.{IntResult, need_more, invalid, ok, int64_min, max_args, max_bulk}

-- The text of what `fail` throws.
abbrev pub resp_error : Bytes → Bytes
resp_error msg = codes "RESP error: " ++ msg

-- From `pos` to the next carriage return, behind which a newline must stand.
pub parse_int_crlf : Bytes → ℕ → IntResult
parse_int_crlf s start = elim (find_byte cr (drop start s)) [
  | none ↦ need_more
  | some n ↦
      let ret = start + n in
      if leb (length s) (ret + 1)
      then need_more
      else if not (byte_at s (ret + 1) == lf)
      then invalid
      else elim (whole (from_chars_i64 (take n (drop start s)))) [
        | none ↦ invalid
        | some v ↦ ok v (ret + 2)
      ]
]

-- What one bulk string or all of them come to: the position behind, or the status that is returned.
pub data Framed : Type 0 where
  waits refused : Framed
  ends_at : (pos : ℕ) → Framed

-- The bulk string that begins behind its dollar sign at `pos`.
pub frame_item : Bytes → ℕ → Framed
frame_item s pos = elim (parse_int_crlf s pos) [
  | need_more ↦ waits
  | invalid ↦ refused
  | ok bulk_len pos' ↦
      let need = pos' + bulk_len + 2 in
      if leb int64_min bulk_len
      then refused
      else if ltb (length s) need
      then waits
      else if not (byte_at s (pos' + bulk_len) == cr) || not (byte_at s (pos' + bulk_len + 1) == lf)
      then refused
      else ends_at need
]

-- The loop, for the number of bulk strings that are left.
pub frame_items : Bytes → (left pos : ℕ) → Framed
frame_items s zero pos = ends_at pos
frame_items s (suc left) pos =
    if leb (length s) pos
    then waits
    else if not (byte_at s pos == b'$')
    then refused
    else elim (frame_item s (pos + 1)) [
      | waits ↦ waits
      | refused ↦ refused
      | ends_at pos' ↦ frame_items s left pos'
    ]

pub parse_frame_length : Bytes → Framed
parse_frame_length s =
    if length s == 0
    then waits
    else if not (byte_at s 0 == b'*')
    then refused
    else elim (parse_int_crlf s 1) [
      | need_more ↦ waits
      | invalid ↦ refused
      | ok argc pos ↦ if argc == 0 || leb int64_min argc then refused else frame_items s argc pos
    ]

-- What `parse_command_from_frame` gives, or the message of the exception that it throws.
pub data Parsed (A : Type 0) : Type 0 where
  parsed : A → Parsed A
  fails : Bytes → Parsed A

-- One bulk string and the position behind it.
pub command_item : Bytes → ℕ → Parsed (Bytes × ℕ)
command_item s pos =
    if leb (length s) pos || not (byte_at s pos == b'$')
    then fails (resp_error (codes "expected bulk string '$' in array"))
    else elim (parse_int_crlf s (pos + 1)) [
      | need_more ↦ fails (resp_error (codes "invalid bulk length"))
      | invalid ↦ fails (resp_error (codes "invalid bulk length"))
      | ok len pos' ↦
          let need = pos' + len + 2 in
          if leb int64_min len
          then fails (resp_error (codes "invalid bulk length"))
          else if ltb max_bulk len
          then fails (resp_error (codes "bulk string too large"))
          else if ltb (length s) need
              || not (byte_at s (pos' + len) == cr)
              || not (byte_at s (pos' + len + 1) == lf)
          then fails (resp_error (codes "invalid bulk payload"))
          else parsed (take len (drop pos' s), need)
    ]

pub command_items : Bytes → (left pos : ℕ) → Parsed (List Bytes)
command_items s zero pos = parsed []
command_items s (suc left) pos = elim (command_item s pos) [
  | fails message ↦ fails message
  | parsed (arg, pos') ↦ elim (command_items s left pos') [
    | fails message ↦ fails message
    | parsed args ↦ parsed (arg ∷ args)
  ]
]

pub parse_command_from_frame : Bytes → Parsed (List Bytes)
parse_command_from_frame s =
    if length s == 0 || not (byte_at s 0 == b'*')
    then fails (resp_error (codes "expected array '*'"))
    else elim (parse_int_crlf s 1) [
      | need_more ↦ fails (resp_error (codes "invalid array length"))
      | invalid ↦ fails (resp_error (codes "invalid array length"))
      | ok argc pos ↦
          if argc == 0 || leb int64_min argc
          then fails (resp_error (codes "invalid array length"))
          else if ltb max_args argc
          then fails (resp_error (codes "too many arguments"))
          else command_items s argc pos
    ]
