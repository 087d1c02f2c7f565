-- ===== src/Conn/Tests.antt =====
-- The theorems on the connection of src/conn/socket_handler.cc, applied to a client that sends one line
-- to the echo handler.
use shunya_kv.Prelude.{◌≡◌, refl, ◌⊎◌, Bool, true, false, some, List, [], ◌∷◌, arith}
use shunya_kv.Prelude.Bytes.{Bytes, codes, find_byte}
use shunya_kv.Resp.{ParsedRequest}
use shunya_kv.Conn.{
  extracts, Handler, Step, fresh_handler, queued, replied, read_ended, read_chunk, read_ends,
  extract_waits, extract_request, take_slot, pop_front, write_reply, Reach, here, next, reading,
}
use shunya_kv.Conn.Order.{IsOrderly, Reach-IsOrderly}
use shunya_kv.Conn.Progress.{Enabled, IsFinished, IsStuck, Reach-Enabled}
use shunya_kv.Conn.Line.{
  try_extract_line, strip_cr, extract_lines, extract_lines-on_wire, line_request, line_requests,
  on_wire, echo,
}
use shunya_kv.Conn.Stall.{IsWhole, fresh-IsStuck}

abbrev ping : Bytes
ping = codes "ping\n"

abbrev pub request : ParsedRequest
request = line_request (codes "ping")

extracts_ping : try_extract_line tt ping ≡ extracts tt [] (some request)
unfolding try_extract_line find_byte strip_cr
extracts_ping = refl

abbrev pub fresh : Handler (Unit {0})
fresh = fresh_handler tt

-- The line is read, its request queued, and the input ends.
abbrev pub waiting : Handler (Unit {0})
waiting = read_ended (record (queued fresh request) { read_at = reading; received = ping })

pub waiting_run : Reach try_extract_line fresh waiting
unfolding try_extract_line find_byte strip_cr
waiting_run =
    next
      (next
        (next
          (next (next here (read_chunk ping refl cc))
            (extract_request tt [] request refl extracts_ping))
          (take_slot request refl (omega arith)))
        (extract_waits tt [] refl refl))
      (read_ends refl)

-- The reply is written.
abbrev pub served : Handler (Unit {0})
served = replied (record waiting { respq = [] }) request (echo request)

pub served_run : Reach try_extract_line fresh served
served_run =
    next (next waiting_run (pop_front request [] refl refl))
      (write_reply request (echo request) refl)

Reach-IsOrderly_example : IsOrderly served
Reach-IsOrderly_example = Reach-IsOrderly try_extract_line tt served_run

Reach-Enabled_example : Enabled try_extract_line served ⊎ (IsFinished served ⊎ IsStuck served)
Reach-Enabled_example = Reach-Enabled try_extract_line tt served served_run

ping-IsWhole : IsWhole try_extract_line tt ping request
unfolding try_extract_line find_byte strip_cr
ping-IsWhole = record { some_bytes = cc; one = refl; no_more = refl }

fresh-IsStuck_example :
    (s : Handler (Unit {0})) × Reach try_extract_line fresh s
    × IsStuck s
    × ((t : Handler (Unit {0})) → ¬ Step try_extract_line s t)
fresh-IsStuck_example = fresh-IsStuck try_extract_line tt ping request ping-IsWhole

abbrev two_lines : List (Bytes × Bool)
two_lines = (codes "one", true) ∷ (codes "two", false) ∷ []

extract_lines-on_wire_example :
    extract_lines 3 (on_wire two_lines (codes "th")) ≡ (line_requests two_lines, codes "th")
extract_lines-on_wire_example =
    extract_lines-on_wire two_lines (codes "th") (ground arith) (ground arith)
