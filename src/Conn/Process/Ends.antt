-- ===== src/Conn/Process/Ends.antt =====
-- `process` of src/conn/socket_handler.cc: how it comes to its end behind the end of the input.
use shunya_kv.Prelude.{◌≡◌, ◌≢◌, refl, ap, Bool, false}
use shunya_kv.Prelude.Bytes.{Bytes}
use shunya_kv.Resp.{ParsedRequest}
use shunya_kv.Conn.{Handler, Extracted, read_done, write_done, Reach, here, next}
use shunya_kv.Conn.Order.{answered}
use shunya_kv.Conn.Progress.{IsFinished, Reach-drain}
use shunya_kv.Conn.Process.{
  looping, over, Process, fresh_process, loops, loops_end, closes_out, closes_in, ProcessReach,
  begin, and_then,
}
use shunya_kv.Conn.Process.Closed.{place_facts, Reach-IsPlaced}

module _ {P : Type 0} (try_extract_request : P → Bytes → Extracted P) (on : Bool)
    (details : Bytes) where
  -- Steps of the two loops are steps of the process.
  pub loop_steps :
      {s₀ : Process P} (s : Process P) (h : Handler P)
      → ProcessReach try_extract_request on details s₀ s
      → s.at ≡ looping
      → Reach try_extract_request s.handler h
      → ProcessReach try_extract_request on details s₀ (record s { handler = h })
  loop_steps s h run at here = run
  loop_steps s h run at (next {t} r st) = and_then (loop_steps s t run at r) (loops h at st)

  -- A process whose loops have ended closes both streams.
  pub closes_both :
      {s₀ : Process P} (s : Process P)
      → ProcessReach try_extract_request on details s₀ s
      → s.at ≡ looping
      → IsFinished s.handler
      → ProcessReach try_extract_request on details s₀
          (record s { at = over s.ep; out_open = false; in_open = false })
  closes_both s run at (r, w) =
      and_then (and_then (and_then run (loops_end at r w)) (closes_out refl)) (closes_in refl)

  -- A process that is in its loops, whose input has ended and whose write loop runs, can come to its end
  -- by steps that write the replies of all handled requests, in order, and close both streams; no
  -- exception is raised.
  pub Reach-process_ends :
      (reply : ParsedRequest → Bytes) (p : P) (s : Process P)
      → ProcessReach try_extract_request on details (fresh_process p) s
      → s.at ≡ looping
      → s.handler.read_at ≡ read_done
      → s.handler.write_at ≢ write_done
      → (t : Process P) × ProcessReach try_extract_request on details s t
        × (t.at ≡ over false)
        × (t.out_open ≡ false)
        × (t.in_open ≡ false)
        × (answered t.handler.sent ≡ s.handler.handled)
  Reach-process_ends reply p s run at r w =
      let ((e, _, hs), _, _) =
        place_facts try_extract_request on details p s looping at
          (Reach-IsPlaced try_extract_request on details p s run) in
      let (h, hr, fin, all, _) = Reach-drain try_extract_request reply p s.handler hs r w in
      let mid : Process P = record s { handler = h } in
      (
        record mid { at = over s.ep; out_open = false; in_open = false },
        closes_both mid (loop_steps s h begin at hr) at fin,
        ap over e,
        refl,
        refl,
        all,
      )
