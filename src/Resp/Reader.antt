-- ===== src/Resp/Reader.antt =====
-- src/resp/resp_parser.cc: `Reader`, which reads a command from an input stream and keeps the bytes
-- that it has not used. The stream is the list of the chunks that `in.read()` will give; at its end, and
-- where a chunk is empty, the code takes it that the peer has closed.
pub mod Moves
pub mod Lines
pub mod Written
mod Tests
use shunya_kv.Prelude.{
  ℕ, zero, suc, ◌+◌, ◌-◌, ◌*◌, ◌^◌, ◌||◌, ◌&&◌, not, Bool, Option, none, some, List, [], ◌∷◌, ◌++◌,
  leb, ltb, ◌==◌, if◌then◌else◌, length, take, drop,
}
use shunya_kv.Prelude.Bytes.{Bytes, codes, byte_at, cr, lf}
use shunya_kv.Resp.Chars.{from_chars_i64, whole}
use shunya_kv.Resp.Frame.{resp_error}
use shunya_kv.Resp.Stream.{compact_if_needed, int64_min, max_args, max_bulk, word}

pub record Reader : Type 0 where
  pub buf : Bytes
  pub off : ℕ

abbrev pub Chunks : Type 0
Chunks = List Bytes

-- What an operation gives, with the reader and the stream behind it; or the message of the exception
-- that it throws.
pub data Read (A : Type 0) : Type 0 where
  gives : A → Reader → Chunks → Read A
  fails : Bytes → Read A

abbrev pub M : Type 0 → Type 0
M A = Reader → Chunks → Read A

infixl 5 ◌>>=◌
abbrev pub ◌>>=◌ : {A B : Type 0} → M A → (A → M B) → M B
◌>>=◌ m f r input = elim (m r input) [
  | fails message ↦ fails message
  | gives a r' input' ↦ f a r' input'
]

abbrev pub pure : {A : Type 0} → A → M A
pure a r input = gives a r input

abbrev pub fail : {A : Type 0} → Bytes → M A
fail message r input = fails (resp_error message)

abbrev pub size : Reader → ℕ
size r = length r.buf - r.off

abbrev pub view : Reader → Bytes
view r = drop r.off r.buf

unfoldable pub compact : Reader → Reader
compact r = let (buf', off') = compact_if_needed r.buf r.off in record { buf = buf'; off = off' }

-- `compact_if_needed` and `_buf.append`.
unfoldable pub receive : Reader → Bytes → Reader
receive r chunk = record (compact r) { buf = (compact r).buf ++ chunk }

-- `_off += n` and `compact_if_needed`.
unfoldable pub advance : Reader → ℕ → Reader
advance r n = compact (record r { off = r.off + n })

unfoldable pub ensure : ℕ → Reader → Chunks → Reader × Chunks
ensure n r [] = (r, [])
ensure n r (c ∷ cs) =
    let go_on = ensure n (receive r c) cs in
    if not (ltb (size r) n) then (r, c ∷ cs) else if length c == 0 then (r, cs) else go_on

-- A NUL stands for the end of the input.
unfoldable pub read_byte : M ℕ
read_byte r input =
    let (r', input') = ensure 1 r input in
    if size r' == 0 then gives 0 r' input' else gives (byte_at r'.buf r'.off) (advance r' 1) input'

-- `find("\r\n")`.
unfoldable pub find_crlf : Bytes → Option ℕ
find_crlf [] = none
find_crlf (c ∷ s) =
    if c == cr && byte_at s 0 == lf
    then some 0
    else elim (find_crlf s) [ none ↦ none | some i ↦ some (suc i) ]

abbrev pub cut_line : Reader → ℕ → Chunks → Read Bytes
cut_line r pos input = gives (take pos (view r)) (advance r (pos + 2)) input

-- The input has ended within a line.
abbrev pub line_ends : Reader → Chunks → Read Bytes
line_ends r input =
    if size r == 0
    then gives [] r input
    else fails (resp_error (codes "unexpected EOF while reading line"))

unfoldable pub read_line_crlf : M Bytes
read_line_crlf r [] = elim (find_crlf (view r)) [
  | some pos ↦ cut_line r pos []
  | none ↦ line_ends r []
]
read_line_crlf r (c ∷ cs) = elim (find_crlf (view r)) [
  | some pos ↦ cut_line r pos (c ∷ cs)
  | none ↦
      let go_on = read_line_crlf (receive r c) cs in if length c == 0 then line_ends r cs else go_on
]

abbrev pub int_of_line : Bytes → M ℕ
int_of_line line = if length line == 0 then pure 0 else elim (whole (from_chars_i64 line)) [
  | none ↦ fail (codes "invalid integer")
  | some n ↦ pure n
]

unfoldable pub read_int_line : M ℕ
read_int_line = do line ← read_line_crlf; int_of_line line

-- The payload of a bulk string and the line end behind it.
unfoldable pub read_payload : ℕ → M Bytes
read_payload len r input =
    let (r', input') = ensure (len + 2) r input in
    if ltb (size r') (len + 2)
    then fails (resp_error (codes "unexpected EOF reading bulk payload"))
    else if not (byte_at (view r') len == cr) || not (byte_at (view r') (len + 1) == lf)
    then fails (resp_error (codes "missing CRLF after bulk payload"))
    else gives (take len (view r')) (advance r' (len + 2)) input'

-- `len == -1`, `len < 0`, `len > MAX_BULK`.
unfoldable pub bulk_of_len : ℕ → M Bytes
bulk_of_len len =
    if len == word - 1
    then pure []
    else if leb int64_min len
    then fail (codes "negative bulk length")
    else if ltb max_bulk len
    then fail (codes "bulk string too large")
    else read_payload len

abbrev pub bulk_of_line : Bytes → M Bytes
bulk_of_line line =
    if length line == 0
    then fail (codes "unexpected EOF reading bulk length")
    else elim (whole (from_chars_i64 line)) [
      | none ↦ fail (codes "invalid bulk length")
      | some len ↦ bulk_of_len len
    ]

unfoldable pub read_bulk : M Bytes
read_bulk = do line ← read_line_crlf; bulk_of_line line

abbrev pub bulk_of_type : ℕ → M Bytes
bulk_of_type bt =
    if bt == 0
    then fail (codes "unexpected EOF inside array")
    else if not (bt == b'$')
    then fail (codes "expected bulk string '$' in array")
    else read_bulk

unfoldable pub read_items : ℕ → M (List Bytes)
read_items zero = pure []
read_items (suc left) = do
  bt ← read_byte
  arg ← bulk_of_type bt
  args ← read_items left
  pure (arg ∷ args)

abbrev pub items_of_count : ℕ → M (List Bytes)
items_of_count n =
    if n == 0 || leb int64_min n
    then fail (codes "array length must be positive")
    else if ltb max_args n
    then fail (codes "too many arguments")
    else read_items n

abbrev pub command_of_type : ℕ → M (List Bytes)
command_of_type t =
    if t == 0
    then pure []
    else if not (t == b'*')
    then fail (codes "expected array '*'")
    else read_int_line >>= items_of_count

-- No arguments stand for a connection that was closed.
unfoldable pub read_command : M (List Bytes)
read_command = do t ← read_byte; command_of_type t
