-- ===== src/Session.antt =====
-- `tcp_server::handle_session` of src/server.cc: the loop of the older server, which reads one command
-- after the other with `Reader` and answers each before it reads the next. The build leaves this file out,
-- and its call of a handler is older than the type `Handler` of include/commands.hh. The writes to the
-- peer do not fail here.
pub mod Served
mod Tests
use shunya_kv.Prelude.{
  ℕ, zero, suc, Bool, true, false, Option, none, some, List, [], ◌∷◌, ◌++◌, map, if◌then◌else◌,
}
use shunya_kv.Prelude.Bytes.{Bytes, codes, same_bytes}
use shunya_kv.Resp.Writer.{write_error}
use shunya_kv.Resp.Reader.{Reader, Chunks, gives, fails, read_command}
use shunya_kv.Commands.{Command, command_name, command_dispatch, upper}

-- What a handler makes of the node and what it writes; it may raise an exception behind that.
pub data Handled (N : Type 0) : Type 0 where
  answers : N → Bytes → Handled N
  raises : N → Bytes → Handled N

-- The peer has closed, QUIT was answered, or an exception was caught.
pub data SessionEnd : Type 0 where
  closed done failed : SessionEnd

-- The node, the bytes that were written, and how the session ended.
pub record Ended (N : Type 0) : Type 0 where
  pub node : N
  pub out : Bytes
  pub how : SessionEnd

-- `table.find` of the name in capitals.
unfoldable pub find_handler : List Command → Bytes → Option Command
find_handler [] name = none
find_handler (c ∷ table) name =
    if same_bytes name (command_name c) then some c else find_handler table name

abbrev pub cmd_u : List Bytes → Bytes
cmd_u [] = []
cmd_u (name ∷ args) = map upper name

abbrev pub unknown_command : Bytes
unknown_command = write_error [] (codes "ERR unknown command")

-- The handlers of the table, with the node that they work on, are parameters.
module _ {N : Type 0} (handle : N → Command → List Bytes → Handled N) where
  -- What one command comes to: the session goes on, or it ends.
  pub data Answer : Type 0 where
    goes_on : N → Bytes → Answer
    ends : Ended N → Answer

  abbrev pub answered : (quits : Bool) → Handled N → (out : Bytes) → Answer
  answered quits (answers n reply) out =
      if quits
      then ends (record { node = n; out = out ++ reply; how = done })
      else goes_on n (out ++ reply)
  answered quits (raises n reply) out = ends (record { node = n; out = out ++ reply; how = failed })

  unfoldable pub answer : N → List Bytes → (out : Bytes) → Answer
  answer n cmd out = elim (find_handler command_dispatch (cmd_u cmd)) [
    | none ↦ goes_on n (out ++ unknown_command)
    | some c ↦ answered (same_bytes (cmd_u cmd) (codes "QUIT")) (handle n c cmd) out
  ]

  -- The loop, with fuel; `none` means that the fuel ran out.
  unfoldable pub handle_session : ℕ → N → Reader → Chunks → (out : Bytes) → Option (Ended N)
  handle_session zero n r input out = none
  handle_session (suc fuel) n r input out = elim (read_command r input) [
    | fails message ↦ some (record { node = n; out = out; how = failed })
    | gives [] r' input' ↦ some (record { node = n; out = out; how = closed })
    | gives (name ∷ args) r' input' ↦ elim (answer n (name ∷ args) out) [
      | ends e ↦ some e
      | goes_on n' out' ↦ handle_session fuel n' r' input' out'
    ]
  ]
