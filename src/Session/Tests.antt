-- ===== src/Session/Tests.antt =====
-- The theorem on sessions, applied to an unknown command and QUIT that arrive in three chunks.
use shunya_kv.Prelude.{ℕ, ◌+◌, refl, List, [], ◌∷◌, arith, All}
use shunya_kv.Prelude.Bytes.{Bytes, codes}
use shunya_kv.Resp.Writer.{write_array_bulk, write_simple}
use shunya_kv.Resp.Writer.Decimal.{print_decimal, print_decimal-IsDecimal}
use shunya_kv.Resp.Reader.{Reader, Chunks}
use shunya_kv.Resp.Reader.Moves.{Unread}
use shunya_kv.Commands.{Command}
use shunya_kv.Conn.Requests.{wire}
use shunya_kv.Session.{Handled, answers, handle_session}
use shunya_kv.Session.Served.{Result, handle_session-Serves, IsReadable}

abbrev start : Reader
start = record { buf = []; off = 0 }

-- Every handler counts its calls and answers OK.
abbrev count : ℕ → Command → List Bytes → Handled ℕ
count n c cmd = answers (n + 1) (write_simple [] (codes "OK"))

abbrev commands : List (List Bytes)
commands = (codes "PING" ∷ []) ∷ (codes "quit" ∷ []) ∷ (codes "GET" ∷ codes "k" ∷ []) ∷ []

abbrev chunks : Chunks
chunks =
    codes "*1\r\n$4\r"
    ∷ codes "\nPING\r\n*1\r\n$4\r\nquit\r\n*2\r\n"
    ∷ codes "$3\r\nGET\r\n$1\r\nk\r\n"
    ∷ []

chunks-Unread : Unread (wire print_decimal commands) start chunks
unfolding print_decimal write_array_bulk
chunks-Unread = record { inside = omega arith; some_bytes = ground arith; bytes = refl }

commands-IsReadable : All IsReadable commands
commands-IsReadable = ground arith

handle_session-Serves_example :
    Result count 0 [] commands (handle_session count 4 0 start chunks [])
handle_session-Serves_example =
    handle_session-Serves count print_decimal print_decimal-IsDecimal commands 0 start chunks []
      commands-IsReadable chunks-Unread
