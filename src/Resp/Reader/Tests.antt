-- ===== src/Resp/Reader/Tests.antt =====
-- The theorems on the reader, applied to a GET that arrives in three chunks.
use shunya_kv.Prelude.{◌≡◌, inr, refl, List, [], ◌∷◌, ◌++◌, arith}
use shunya_kv.Prelude.Bytes.{Bytes, codes}
use shunya_kv.Resp.Writer.{write_array_bulk}
use shunya_kv.Resp.Writer.Decimal.{print_decimal, print_decimal-IsDecimal}
use shunya_kv.Resp.Reader.{Reader, Chunks, gives, read_command}
use shunya_kv.Resp.Reader.Moves.{Unread, Gives}
use shunya_kv.Resp.Reader.Written.{read_command-write_array_bulk, read_command_closed}

abbrev start : Reader
start = record { buf = []; off = 0 }

abbrev get_args : List Bytes
get_args = codes "GET" ∷ codes "k" ∷ []

abbrev get_frame : Bytes
get_frame = write_array_bulk print_decimal [] get_args

abbrev chunks : Chunks
chunks = codes "*2\r" ∷ codes "\n$3\r\nGET\r\n$1\r\nk" ∷ codes "\r\n*1" ∷ []

chunks-Unread : Unread (get_frame ++ codes "*1") start chunks
unfolding print_decimal write_array_bulk
chunks-Unread = record { inside = omega arith; some_bytes = ground arith; bytes = refl }

read_command-write_array_bulk_example : Gives read_command start chunks get_args (codes "*1")
read_command-write_array_bulk_example =
    read_command-write_array_bulk print_decimal print_decimal-IsDecimal get_args (codes "*1") start
      chunks (omega arith) (omega arith) (omega arith) chunks-Unread

nul-Unread : Unread (0 ∷ get_frame) start ((0 ∷ get_frame) ∷ [])
unfolding print_decimal write_array_bulk
nul-Unread = record { inside = omega arith; some_bytes = ground arith; bytes = refl }

read_command_closed_example :
    (r' : Reader) × (input' : Chunks) × (read_command start ((0 ∷ get_frame) ∷ [])
      ≡ gives [] r' input')
read_command_closed_example =
    read_command_closed get_frame start ((0 ∷ get_frame) ∷ []) (inr nul-Unread)
