-- ===== src/Resp/Frame/Tests.antt =====
-- The theorems on the frame parser, applied to a GET.
use shunya_kv.Prelude.{ℕ, ◌<◌, ◌≡◌, List, [], ◌∷◌, ◌++◌, arith, length, take}
use shunya_kv.Prelude.Bytes.{Bytes, codes}
use shunya_kv.Resp.Writer.{write_array_bulk}
use shunya_kv.Resp.Writer.Decimal.{print_decimal, print_decimal-IsDecimal}
use shunya_kv.Resp.Stream.{int64_min}
use shunya_kv.Resp.Frame.{waits, ends_at, parse_frame_length}
use shunya_kv.Resp.Frame.Written.{parse_frame_length-write_array_bulk}

abbrev get_args : List Bytes
get_args = codes "GET" ∷ codes "k" ∷ []

abbrev get_frame : Bytes
get_frame = write_array_bulk print_decimal [] get_args

short : length (get_frame ++ codes "*1") < int64_min
unfolding print_decimal write_array_bulk
short = omega arith

parse_frame_length-write_array_bulk_example :
    (parse_frame_length (get_frame ++ codes "*1") ≡ ends_at (length get_frame))
    × ((n : ℕ) → n < length get_frame → parse_frame_length (take n get_frame) ≡ waits)
parse_frame_length-write_array_bulk_example =
    parse_frame_length-write_array_bulk print_decimal print_decimal-IsDecimal get_args (codes "*1")
      (omega arith) short
