-- ===== src/Conn/Requests/Tests.antt =====
-- The theorems on the requests of a RESP connection, applied to a client that sends QUIT in two pieces.
use shunya_kv.Prelude.{◌≡◌, refl, ap, List, [], ◌∷◌, ◌++◌, arith, All}
use shunya_kv.Prelude.Bytes.{Bytes, codes, crlf}
use shunya_kv.Resp.{ParsedRequest}
use shunya_kv.Resp.Writer.{write_array_bulk, write_bulks, write_bulk, write_crlf}
use shunya_kv.Resp.Writer.Decimal.{print_decimal, print_decimal-IsDecimal}
use shunya_kv.Resp.Stream.{Processor, fresh}
use shunya_kv.Resp.Stream.Tests.{
  quit_begin, quit_end, quit_args, in_length, after_quit, quit_waits, quit_returns, quit_idles,
}
use shunya_kv.Conn.{
  Handler, fresh_handler, read_chunk, extract_waits, extract_request, take_slot, pop_front,
  write_reply, Reach, here, next,
}
use shunya_kv.Conn.Order.{answered}
use shunya_kv.Conn.Requests.{extract_resp, as_extracted, Fits, wire, requests}
use shunya_kv.Conn.Requests.Sync.{IsWaiting}
use shunya_kv.Conn.Requests.Handled.{Reach-handled, Reach-caught_up}

abbrev quit : ParsedRequest
quit = record { frame = quit_begin ++ quit_end; argv = quit_args }

abbrev bye : Bytes
bye = codes "+OK" ++ crlf

-- The request has come, and its reply is written.
abbrev served : Handler Processor
served = record (fresh_handler fresh) {
  parser = after_quit;
  received = quit_begin ++ quit_end;
  handled = quit ∷ [];
  sent = (quit, bye) ∷ [];
}

served_run : Reach extract_resp (fresh_handler fresh) served
unfolding extract_resp
served_run =
    next
      (next
        (next
          (next
            (next
              (next
                (next (next here (read_chunk quit_begin refl (λ k. cc)))
                  (extract_waits in_length quit_begin refl (ap as_extracted quit_waits)))
                (read_chunk quit_end refl (λ k. cc)))
              (extract_request after_quit [] quit refl (ap as_extracted quit_returns)))
            (take_slot quit refl (omega arith)))
          (pop_front quit [] refl refl))
        (write_reply quit bye refl))
      (extract_waits after_quit [] refl (ap as_extracted quit_idles))

quit_wire : (quit_begin ++ quit_end) ++ [] ≡ wire print_decimal (quit_args ∷ [])
unfolding write_array_bulk write_bulks write_bulk write_crlf print_decimal
quit_wire = refl

quit-Fits : All (Fits print_decimal) (quit_args ∷ [])
unfolding write_array_bulk write_bulks write_bulk write_crlf print_decimal
quit-Fits = (
  record { some_args = omega arith; few = omega arith; small = omega arith; short = omega arith },
  tt,
)

Reach-handled_example :
    (done : List (List Bytes)) × (rest : List (List Bytes)) × (unanswered : List ParsedRequest)
    × (quit_args ∷ [] ≡ done ++ rest)
    × (served.handled ≡ requests print_decimal done)
    × (requests print_decimal done ≡ answered served.sent ++ unanswered)
Reach-handled_example =
    Reach-handled print_decimal print_decimal-IsDecimal (quit_args ∷ []) quit-Fits served_run []
      quit_wire

Reach-caught_up_example :
    (done : List (List Bytes)) × (rest : List (List Bytes)) × (partial : Bytes) × (quit_args ∷ []
      ≡ done ++ rest)
    × (served.handled ≡ requests print_decimal done)
    × (served.received ≡ wire print_decimal done ++ partial)
    × IsWaiting print_decimal rest partial
Reach-caught_up_example =
    Reach-caught_up print_decimal print_decimal-IsDecimal (quit_args ∷ []) quit-Fits served_run []
      quit_wire refl
