-- ===== src/Conn/Process/Tests.antt =====
-- The theorems on `process`, applied to a connection that is greeted and asks one line.
use shunya_kv.Prelude.{◌≡◌, refl, true, false}
use shunya_kv.Prelude.Bytes.{Bytes, codes}
use shunya_kv.Conn.{Handler, write_ends, next, write_done}
use shunya_kv.Conn.Order.{answered}
use shunya_kv.Conn.Line.{try_extract_line, echo}
use shunya_kv.Conn.Tests.{waiting, waiting_run, served, served_run}
use shunya_kv.Conn.Process.{
  Process, fresh_process, looping, over, ProcessReach, begin, and_then, greets,
}
use shunya_kv.Conn.Process.Closed.{Outcome, Reach-closed}
use shunya_kv.Conn.Process.Ends.{loop_steps, closes_both, Reach-process_ends}

abbrev details : Bytes
details = codes "$2\r\n{}\r\n"

abbrev start : Process (Unit {0})
start = fresh_process tt

abbrev in_loops : Process (Unit {0})
in_loops = record start { at = looping; greeted = details }

-- The line was read, and the input has ended.
abbrev asked : Process (Unit {0})
asked = record in_loops { handler = waiting }

asked_run : ProcessReach try_extract_line true details start asked
asked_run =
    loop_steps try_extract_line true details in_loops waiting (and_then begin (greets refl refl))
      refl waiting_run

-- The reply was written, and both streams were closed.
abbrev answered_all : Handler (Unit {0})
answered_all = record served { write_at = write_done }

abbrev finished : Process (Unit {0})
finished = record in_loops {
  handler = answered_all;
  at = over false;
  out_open = false;
  in_open = false;
}

finished_run : ProcessReach try_extract_line true details start finished
finished_run =
    closes_both try_extract_line true details (record in_loops { handler = answered_all })
      (loop_steps try_extract_line true details in_loops answered_all
        (and_then begin (greets refl refl)) refl (next served_run (write_ends refl refl refl)))
      refl (refl, refl)

Reach-closed_example :
    (finished.out_open ≡ false)
    × (finished.in_open ≡ false)
    × Outcome try_extract_line true details tt false finished
Reach-closed_example =
    Reach-closed try_extract_line true details tt finished false finished_run refl

Reach-process_ends_example :
    (t : Process (Unit {0})) × ProcessReach try_extract_line true details asked t
    × (t.at ≡ over false)
    × (t.out_open ≡ false)
    × (t.in_open ≡ false)
    × (answered t.handler.sent ≡ asked.handler.handled)
Reach-process_ends_example =
    Reach-process_ends try_extract_line true details echo tt asked asked_run refl refl cc
