-- ===== src/Resp/Stream/Tests.antt =====
-- Runs of the parser, and its theorems at concrete inputs.
use shunya_kv.Prelude.{◌≤◌, ◌<◌, ◌≡◌, refl, arith, some, none, List, [], ◌∷◌, ◌++◌, drop, length}
use shunya_kv.Prelude.Bytes.{Bytes, codes, find_byte}
use shunya_kv.Resp.Writer.{write_array_bulk}
use shunya_kv.Resp.Stream.{
  Processor, Outcome, fresh, need_star, need_bulk_len, need_bulk_data, returns, out_of_range,
  try_extract_request, extract_loop, step, dispatch, step_star, step_argc, step_dollar,
  step_bulk_len, step_bulk_data, step_bulk_crlf, finish, cut_slices, substr, resync_with,
  reset_and_resync, resync_pos, compact_if_needed, skip_line, parse_int_crlf, parse_line,
  read_digits, digit, protocol_error, work,
}
use shunya_kv.Resp.Writer.Decimal.{print_decimal, print_decimal-IsDecimal}
use shunya_kv.Resp.Stream.Progress.{OutcomeProgresses, try_extract_request-Progresses}
use shunya_kv.Resp.Stream.Resume.{try_extract_request_resume}
use shunya_kv.Resp.Stream.RoundTrip.{try_extract_request-write_array_bulk}

-- Computes a call.
extract : Processor → Bytes → Outcome
unfolding try_extract_request extract_loop step dispatch step_star step_argc step_dollar
    step_bulk_len step_bulk_data step_bulk_crlf finish cut_slices substr resync_with
    reset_and_resync resync_pos compact_if_needed skip_line parse_int_crlf parse_line read_digits
    digit find_byte
extract p buf = elim (try_extract_request p buf) [ some o ↦ o | none ↦ out_of_range ]

abbrev get_k : Bytes
get_k = codes "*2\r\n$3\r\nGET\r\n$1\r\nk\r\n"

parses :
    extract fresh get_k
    ≡ returns
        (record fresh {
          argc = 2;
          argi = 2;
          bulk_len = 1;
          slices = record { off = 8; len = 3 } ∷ record { off = 17; len = 1 } ∷ [];
        })
        []
        (some (record { frame = get_k; argv = codes "GET" ∷ codes "k" ∷ [] }))
unfolding extract
parses = refl

-- The first of two pieces of a request, and the state that it leaves.
abbrev piece : Bytes
piece = codes "*2\r\n$3\r\nGE"

abbrev half_way : Processor
half_way = record fresh { st = need_bulk_data; pos = 8; argc = 2; bulk_len = 3 }

half_way_lem : try_extract_request fresh piece ≡ some (returns half_way piece none)
unfolding extract
half_way_lem = refl

try_extract_request_resume_example :
    (piece ≡ piece)
    × (try_extract_request half_way (piece ++ codes "T\r\n$1\r\nk\r\n")
        ≡ try_extract_request fresh (piece ++ codes "T\r\n$1\r\nk\r\n"))
try_extract_request_resume_example =
    try_extract_request_resume fresh half_way piece piece (omega arith) half_way_lem
      (codes "T\r\n$1\r\nk\r\n") (λ e. cc)

try_extract_request-Progresses_example :
    (o : Outcome) × (try_extract_request fresh get_k ≡ some o)
    × OutcomeProgresses (work fresh get_k) o
try_extract_request-Progresses_example = try_extract_request-Progresses fresh get_k

abbrev set_args : List Bytes
set_args = codes "SET" ∷ codes "k" ∷ [] ∷ []

set_frame : Bytes
unfolding write_array_bulk
set_frame = write_array_bulk print_decimal [] set_args

try_extract_request-write_array_bulk_example :
    (q : Processor) × (buf' : Bytes) × (try_extract_request fresh (set_frame ++ codes "*1")
      ≡ some (returns q buf' (some (record { frame = set_frame; argv = set_args }))))
    × (q.st ≡ need_star)
    × (q.pos ≤ length buf')
    × (q.pos < 4096)
    × (drop q.pos buf' ≡ codes "*1")
unfolding set_frame print_decimal
try_extract_request-write_array_bulk_example =
    try_extract_request-write_array_bulk print_decimal print_decimal-IsDecimal fresh
      (set_frame ++ codes "*1") set_args (codes "*1") refl (omega arith) (omega arith) (omega arith)
      (omega arith) (omega arith) refl

-- A bad byte between requests: an error reply, and parsing goes on behind the line.
resyncs :
    extract fresh (codes "x\n*1")
    ≡ returns fresh (codes "*1") (some (record { frame = protocol_error; argv = [] }))
unfolding extract
resyncs = refl

-- QUIT in two pieces: the first call waits in the line of the length, the second one returns.
abbrev pub quit_begin : Bytes
quit_begin = codes "*1\r\n$4\r"

abbrev pub quit_end : Bytes
quit_end = codes "\nQUIT\r\n"

abbrev pub quit_args : List Bytes
quit_args = codes "QUIT" ∷ []

abbrev pub in_length : Processor
in_length = record fresh { st = need_bulk_len; pos = 5; argc = 1 }

abbrev pub after_quit : Processor
after_quit = record fresh {
  argc = 1;
  argi = 1;
  bulk_len = 4;
  slices = record { off = 8; len = 4 } ∷ [];
}

pub quit_waits : try_extract_request fresh quit_begin ≡ some (returns in_length quit_begin none)
unfolding try_extract_request extract_loop step dispatch step_star step_argc step_dollar
    step_bulk_len step_bulk_data step_bulk_crlf finish cut_slices substr resync_with
    reset_and_resync resync_pos compact_if_needed skip_line parse_int_crlf parse_line read_digits
    digit find_byte
quit_waits = refl

pub quit_returns :
    try_extract_request in_length (quit_begin ++ quit_end)
    ≡ some
        (returns after_quit [] (some (record { frame = quit_begin ++ quit_end; argv = quit_args })))
unfolding try_extract_request extract_loop step dispatch step_star step_argc step_dollar
    step_bulk_len step_bulk_data step_bulk_crlf finish cut_slices substr resync_with
    reset_and_resync resync_pos compact_if_needed skip_line parse_int_crlf parse_line read_digits
    digit find_byte
quit_returns = refl

pub quit_idles : try_extract_request after_quit [] ≡ some (returns after_quit [] none)
unfolding try_extract_request extract_loop step dispatch step_star step_argc step_dollar
    step_bulk_len step_bulk_data step_bulk_crlf finish cut_slices substr resync_with
    reset_and_resync resync_pos compact_if_needed skip_line parse_int_crlf parse_line read_digits
    digit find_byte
quit_idles = refl
