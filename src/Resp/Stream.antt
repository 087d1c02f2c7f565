-- ===== src/Resp/Stream.antt =====
-- src/resp/resp_stream_processor.cc: `RespStreamProcessor`, the incremental parser of requests.
-- The buffer is an argument and part of the outcome; `size_t` positions are below 2^64 and do not
-- wrap, since they are positions in a buffer.
pub mod Parts
pub mod Progress
pub mod Runs
pub mod Waits
pub mod Resume
pub mod Decided
pub mod Numbers
pub mod Items
pub mod AtEnd
pub mod Slices
pub mod RoundTrip
pub mod Prefix
pub mod Tests
use shunya_kv.Prelude.{
  ℕ, zero, suc, ◌+◌, ◌-◌, ◌*◌, ◌%◌, ◌^◌, ◌||◌, not, Option, none, some, List, [], ◌∷◌, ◌++◌, ltb,
  leb, ◌==◌, if◌then◌else◌, length, take, drop, min,
}
use shunya_kv.Prelude.Bytes.{Bytes, codes, byte_at, find_byte, cr, lf, crlf}
use shunya_kv.Resp.{ParsedRequest}

pub data St : Type 0 where
  need_star need_argc need_dollar need_bulk_len need_bulk_data need_bulk_crlf : St

pub record Slice : Type 0 where
  pub off : ℕ
  pub len : ℕ

-- `argc` and `bulk_len` are `int64_t`, held as their 64-bit patterns.
pub record Processor : Type 0 where
  pub st : St
  pub pos : ℕ
  pub cmd_start : ℕ
  pub argc : ℕ
  pub argi : ℕ
  pub bulk_len : ℕ
  pub slices : List Slice

abbrev pub fresh : Processor
fresh = record {
  st = need_star;
  pos = 0;
  cmd_start = 0;
  argc = 0;
  argi = 0;
  bulk_len = 0;
  slices = [];
}

abbrev pub max_args : ℕ
max_args = 1024

abbrev pub max_bulk : ℕ
max_bulk = 64 * 1024 * 1024

abbrev pub int64_min : ℕ
int64_min = 2 ^ 63

abbrev pub word : ℕ
word = 2 ^ 64

-- The buffer and the position after `compact_if_needed`.
pub compact_if_needed : Bytes → ℕ → Bytes × ℕ
compact_if_needed buf pos =
    if pos == 0
    then (buf, pos)
    else if leb (length buf) pos
    then ([], 0)
    else if leb 4096 pos || leb (length buf) (pos * 2)
    then (drop pos buf, 0)
    else (buf, pos)

-- Where `reset_and_resync` leaves the position before it compacts: at the next star, or at the end.
pub resync_pos : Bytes → ℕ → ℕ
resync_pos buf pos = elim (find_byte b'*' (drop pos buf)) [
  | none ↦ length buf
  | some star ↦ pos + star
]

pub reset_and_resync : Processor → Bytes → Processor × Bytes
reset_and_resync p buf =
    let target = if leb (length buf) p.pos then p.pos else resync_pos buf p.pos in
    let (buf', pos') = compact_if_needed buf target in
    (record p { st = need_star; pos = pos' }, buf')

-- `(unsigned)(*q - '0')`: a `char` from 128 up is negative and is sign-extended.
pub digit : ℕ → ℕ
digit c = ((if ltb c 128 then c else c + 2 ^ 32 - 256) + 2 ^ 32 - b'0') % 2 ^ 32

-- The digit loop. The multiplication and the addition are in `int64_t`, whose overflow the model
-- lets wrap around.
pub read_digits : ℕ → Bytes → Option ℕ
read_digits v [] = some v
read_digits v (c ∷ cs) =
    if ltb 9 (digit c) then none else read_digits ((v * 10 + digit c) % word) cs

-- The bytes from the position up to the newline, the newline left out: `none` is `invalid`.
pub parse_line : Bytes → Option ℕ
parse_line line =
    let last = length line - 1 in
    let neg = byte_at line 0 == b'-' in
    let digits = if neg then drop 1 (take last line) else take last line in
    if length line == 0
    then none
    else if not (byte_at line last == cr)
    then none
    else if length digits == 0
    then none
    else elim (read_digits 0 digits) [
      | none ↦ none
      | some v ↦ some (if neg then (word - v) % word else v)
    ]

-- The status of a parsed number; `ok` has the number and the position behind its line.
pub data IntResult : Type 0 where
  need_more invalid : IntResult
  ok : (out pos : ℕ) → IntResult

pub parse_int_crlf : Bytes → ℕ → IntResult
parse_int_crlf buf pos =
    if leb (length buf) pos then need_more else elim (find_byte lf (drop pos buf)) [
      | none ↦ need_more
      | some nl ↦ elim (parse_line (take nl (drop pos buf))) [
        | none ↦ invalid
        | some v ↦ ok v (pos + nl + 1)
      ]
    ]

-- What a call ends with: the new state, the new buffer and what is returned; or the exception that
-- `sstring::substr` throws.
pub data Outcome : Type 0 where
  returns : Processor → Bytes → Option ParsedRequest → Outcome
  out_of_range : Outcome

pub data Iter : Type 0 where
  again : Processor → Iter
  stop : Outcome → Iter

abbrev pub protocol_error : Bytes
protocol_error = codes "-ERR protocol error" ++ crlf

abbrev pub invalid_argc : Bytes
invalid_argc = codes "-ERR invalid argc" ++ crlf

abbrev pub invalid_bulk_length : Bytes
invalid_bulk_length = codes "-ERR invalid bulk length" ++ crlf

pub resync_with : Bytes → Processor → Bytes → Iter
resync_with msg p buf =
    let (p', buf') = reset_and_resync p buf in
    stop (returns p' buf' (some (record { frame = msg; argv = [] })))

-- `sstring::substr` clips the length, and throws where the start lies beyond the end.
pub substr : Bytes → (from len : ℕ) → Option Bytes
substr s from len = if ltb (length s) from then none else some (take len (drop from s))

-- The arguments are cut out of the frame by their slices, relative to the start of the command.
pub cut_slices : Bytes → ℕ → List Slice → Option (List Bytes)
cut_slices frame start [] = some []
cut_slices frame start (sl ∷ sls) = elim (substr frame ((sl.off + word - start) % word) sl.len) [
  | none ↦ none
  | some arg ↦ elim (cut_slices frame start sls) [ none ↦ none | some args ↦ some (arg ∷ args) ]
]

-- Behind the next newline, or at the end.
pub skip_line : Bytes → ℕ → ℕ
skip_line buf pos = elim (find_byte lf (drop pos buf)) [
  | none ↦ length buf
  | some nl ↦ pos + (nl + 1)
]

pub step_star : Processor → Bytes → Iter
step_star p buf =
    let (buf', pos') = compact_if_needed buf p.pos in
    let (buf'', pos'') = compact_if_needed buf (skip_line buf p.pos) in
    if leb (length buf) p.pos
    then stop (returns (record p { pos = pos' }) buf' none)
    else if not (byte_at buf p.pos == b'*')
    then stop (
        returns (record p { pos = pos'' }) buf''
          (some (record { frame = protocol_error; argv = [] })))
    else again (record p { cmd_start = p.pos; pos = p.pos + 1; st = need_argc })

pub step_argc : Processor → Bytes → Iter
step_argc p buf = elim (parse_int_crlf buf p.pos) [
  | need_more ↦ stop (returns p buf none)
  | invalid ↦ resync_with protocol_error p buf
  | ok v pos' ↦
      if v == 0 || leb int64_min v || ltb max_args v
      then resync_with invalid_argc (record p { pos = pos' }) buf
      else again (record p { pos = pos'; argc = v; argi = 0; slices = []; st = need_dollar })
]

pub step_dollar : Processor → Bytes → Iter
step_dollar p buf =
    if leb (length buf) p.pos
    then stop (returns p buf none)
    else if not (byte_at buf p.pos == b'$')
    then resync_with protocol_error p buf
    else again (record p { pos = p.pos + 1; st = need_bulk_len })

pub step_bulk_len : Processor → Bytes → Iter
step_bulk_len p buf = elim (parse_int_crlf buf p.pos) [
  | need_more ↦ stop (returns p buf none)
  | invalid ↦ resync_with protocol_error p buf
  | ok v pos' ↦
      if leb int64_min v || ltb max_bulk v
      then resync_with invalid_bulk_length (record p { pos = pos' }) buf
      else again (record p { pos = pos'; bulk_len = v; st = need_bulk_data })
]

pub step_bulk_data : Processor → Bytes → Iter
step_bulk_data p buf =
    if ltb (length buf) (p.pos + p.bulk_len)
    then stop (returns p buf none)
    else again (record p {
      slices = p.slices ++ record { off = p.pos % 2 ^ 32; len = p.bulk_len % 2 ^ 32 } ∷ [];
      pos = p.pos + p.bulk_len;
      st = need_bulk_crlf;
    })

-- The last argument has arrived: the request is cut out and the buffer compacted.
pub finish : Processor → Bytes → Iter
finish p buf =
    let frame = take (p.pos - p.cmd_start) (drop p.cmd_start buf) in
    let (buf', pos') = compact_if_needed buf p.pos in
    elim (cut_slices frame p.cmd_start p.slices) [
      | none ↦ stop out_of_range
      | some args ↦ stop (
          returns (record p { st = need_star; pos = pos' }) buf'
            (some (record { frame = frame; argv = args })))
    ]

pub step_bulk_crlf : Processor → Bytes → Iter
step_bulk_crlf p buf =
    let p' = record p { pos = p.pos + 2; argi = p.argi + 1 } in
    if ltb (length buf) (p.pos + 2)
    then stop (returns p buf none)
    else if not (byte_at buf p.pos == cr) || not (byte_at buf (p.pos + 1) == lf)
    then resync_with protocol_error p buf
    else if p'.argi == p'.argc
    then finish p' buf
    else again (record p' { st = need_dollar })

pub dispatch : St → Processor → Bytes → Iter
dispatch need_star = step_star
dispatch need_argc = step_argc
dispatch need_dollar = step_dollar
dispatch need_bulk_len = step_bulk_len
dispatch need_bulk_data = step_bulk_data
dispatch need_bulk_crlf = step_bulk_crlf

-- One round of the loop of `try_extract_request`.
pub step : Processor → Bytes → Iter
step p buf = dispatch p.st p buf

-- The loop, with fuel; `none` means that the fuel ran out.
pub extract_loop : ℕ → Processor → Bytes → Option Outcome
extract_loop zero p buf = none
extract_loop (suc fuel) p buf = elim (step p buf) [
  | stop o ↦ some o
  | again p' ↦ extract_loop fuel p' buf
]

-- What is left to do: unread bytes, and how far the current argument has come.
abbrev pub rank : St → ℕ
rank need_star = 0
rank need_bulk_data = 2
rank _ = 1

abbrev pub work : Processor → Bytes → ℕ
work p buf = 3 * (length buf - p.pos) + rank p.st

-- `if (_pos > n) _pos = n;`
abbrev pub clamp : Processor → Bytes → Processor
clamp p buf = record p { pos = min p.pos (length buf) }

pub try_extract_request : Processor → Bytes → Option Outcome
try_extract_request p buf = extract_loop (suc (work (clamp p buf) buf)) (clamp p buf) buf
