-- ===== src/Conn/Process.antt =====
-- `PipelinedSocketHandler::process` of src/conn/socket_handler.cc: the greeting, if it is switched on,
-- then the two loops side by side, and at last both streams are closed, whatever has failed.
pub mod Closed
pub mod Ends
mod Tests
use shunya_kv.Prelude.{◌≡◌, Bool, true, false, [], ◌++◌}
use shunya_kv.Prelude.Bytes.{Bytes}
use shunya_kv.Conn.{Handler, Extracted, read_done, write_done, fresh_handler, Step}

-- Before the greeting, in the two loops, before each of the closings, and at the end, where the
-- exception that was kept is raised again or not.
pub data ProcessAt : Type 0 where
  greeting looping closing_out closing_in : ProcessAt
  over : (raised : Bool) → ProcessAt

-- `ep` says whether an exception was kept, and `greeted` is what the greeting wrote.
pub record Process (P : Type 0) : Type 0 where
  pub at : ProcessAt
  pub ep : Bool
  pub greeted : Bytes
  pub handler : Handler P
  pub out_open : Bool
  pub in_open : Bool

abbrev pub fresh_process : {P : Type 0} → P → Process P
fresh_process p = record {
  at = greeting;
  ep = false;
  greeted = [];
  handler = fresh_handler p;
  out_open = true;
  in_open = true;
}

-- The switch is `g_send_shard_details_on_connect`, and the details are what `send_shard_details` writes.
module _ {P : Type 0} (try_extract_request : P → Bytes → Extracted P)
    (send_shard_details_on_connect : Bool) (details : Bytes) where
  pub data ProcessStep : Process P → Process P → Type 0 where
    no_greeting :
        {s : Process P}
        → s.at ≡ greeting
        → send_shard_details_on_connect ≡ false
        → ProcessStep s (record s { at = looping })
    greets :
        {s : Process P}
        → s.at ≡ greeting
        → send_shard_details_on_connect ≡ true
        → ProcessStep s (record s { at = looping; greeted = details })
    -- The write or the flush has failed, and a part of the greeting has gone out.
    greeting_fails :
        {s : Process P} (part rest : Bytes)
        → s.at ≡ greeting
        → send_shard_details_on_connect ≡ true
        → part ++ rest ≡ details
        → ProcessStep s (record s { at = closing_out; ep = true; greeted = part })
    loops :
        {s : Process P} (h : Handler P)
        → s.at ≡ looping
        → Step try_extract_request s.handler h
        → ProcessStep s (record s { handler = h })
    -- `when_all` is ready: neither of the loops raises an exception.
    loops_end :
        {s : Process P}
        → s.at ≡ looping
        → s.handler.read_at ≡ read_done
        → s.handler.write_at ≡ write_done
        → ProcessStep s (record s { at = closing_out })
    -- An exception of `close` is dropped.
    closes_out :
        {s : Process P}
        → s.at ≡ closing_out
        → ProcessStep s (record s { at = closing_in; out_open = false })
    closes_in :
        {s : Process P}
        → s.at ≡ closing_in
        → ProcessStep s (record s { at = over s.ep; in_open = false })

  pub data ProcessReach (s : Process P) : Process P → Type 0 where
    begin : ProcessReach s s
    and_then : {t u : Process P} → ProcessReach s t → ProcessStep t u → ProcessReach s u
