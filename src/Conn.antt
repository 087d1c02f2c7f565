-- ===== src/Conn.antt =====
-- src/conn/socket_handler.cc: `PipelinedSocketHandler`, the read loop and the write loop of a
-- connection. They take turns at their suspension points, in any order: each step of the relation
-- is what one of them does between two such points, with what the network or a future gave it.
pub mod Order
pub mod Progress
pub mod Line
pub mod Stall
pub mod Requests
pub mod Process
mod Tests
use shunya_kv.Prelude.{
  ℕ, ◌+◌, ◌-◌, ◌<◌, ◌≡◌, ◌≢◌, Bool, true, false, Option, none, some, List, [], ◌∷◌, ◌++◌,
}
use shunya_kv.Prelude.Bytes.{Bytes}
use shunya_kv.Resp.{ParsedRequest}

abbrev pub max_inflight : ℕ
max_inflight = 1024

-- What the hook `try_extract_request` gives: a new state of the parser and a new buffer, with a
-- request or without; or it throws.
pub data Extracted (P : Type 0) : Type 0 where
  extracts : P → Bytes → Option ParsedRequest → Extracted P
  throws : Extracted P

-- Where the read loop is: before `in.read`, before `try_extract_request`, before `_slots.wait` with
-- a request, or at its end.
pub data ReadAt : Type 0 where
  reading extracting read_done : ReadAt
  wants_slot : ParsedRequest → ReadAt

-- Where the write loop is: before it looks at the queue, in `_cv.wait`, in `with_timeout` and the
-- write of the reply to a request, or at its end.
pub data WriteAt : Type 0 where
  looking sleeping write_done : WriteAt
  answering : ParsedRequest → WriteAt

-- A future in the queue is known by the request that it answers. The last three fields are a history:
-- the bytes that were read, the requests that were handed to `handle_request`, and the replies that
-- were written, each with its request.
pub record Handler (P : Type 0) : Type 0 where
  pub parser : P
  pub buffer : Bytes
  pub respq : List ParsedRequest
  pub eof : Bool
  pub slots : ℕ
  pub read_at : ReadAt
  pub write_at : WriteAt
  pub received : Bytes
  pub handled : List ParsedRequest
  pub sent : List (ParsedRequest × Bytes)

abbrev pub fresh_handler : {P : Type 0} → P → Handler P
fresh_handler p = record {
  parser = p;
  buffer = [];
  respq = [];
  eof = false;
  slots = max_inflight;
  read_at = reading;
  write_at = looking;
  received = [];
  handled = [];
  sent = [];
}

-- `_cv.signal` and `_cv.broadcast`: the write loop is the only one that waits.
abbrev pub wake : WriteAt → WriteAt
wake looking = looking
wake sleeping = looking
wake write_done = write_done
wake (answering r) = answering r

-- The end of the read loop.
abbrev pub read_ended : {P : Type 0} → Handler P → Handler P
read_ended s = record s { eof = true; read_at = read_done; write_at = wake s.write_at }

-- The request that was waited for gets its slot and is handled; the future is queued.
abbrev pub queued : {P : Type 0} → Handler P → ParsedRequest → Handler P
queued s r = record s {
  slots = s.slots - 1;
  respq = s.respq ++ r ∷ [];
  handled = s.handled ++ r ∷ [];
  read_at = extracting;
  write_at = wake s.write_at;
}

abbrev pub replied : {P : Type 0} → Handler P → ParsedRequest → Bytes → Handler P
replied s r reply = record s {
  sent = s.sent ++ (r, reply) ∷ [];
  slots = s.slots + 1;
  write_at = looking;
}

-- The two `catch` blocks of the write loop do the same.
abbrev pub write_failed : {P : Type 0} → Handler P → Handler P
write_failed s = record s { eof = true; slots = s.slots + max_inflight; write_at = write_done }

module _ {P : Type 0} (try_extract_request : P → Bytes → Extracted P) where
  pub data Step : Handler P → Handler P → Type 0 where
    read_chunk :
        {s : Handler P} (chunk : Bytes)
        → s.read_at ≡ reading
        → chunk ≢ []
        → Step s (record s {
          buffer = s.buffer ++ chunk;
          read_at = extracting;
          received = s.received ++ chunk;
        })
    -- The peer has closed, or `in.read` has failed.
    read_ends : {s : Handler P} → s.read_at ≡ reading → Step s (read_ended s)
    extract_waits :
        {s : Handler P} (p : P) (b : Bytes)
        → s.read_at ≡ extracting
        → try_extract_request s.parser s.buffer ≡ extracts p b none
        → Step s (record s { parser = p; buffer = b; read_at = reading })
    extract_request :
        {s : Handler P} (p : P) (b : Bytes) (r : ParsedRequest)
        → s.read_at ≡ extracting
        → try_extract_request s.parser s.buffer ≡ extracts p b (some r)
        → Step s (record s { parser = p; buffer = b; read_at = wants_slot r })
    extract_throws :
        {s : Handler P}
        → s.read_at ≡ extracting
        → try_extract_request s.parser s.buffer ≡ throws
        → Step s (read_ended s)
    take_slot :
        {s : Handler P} (r : ParsedRequest)
        → s.read_at ≡ wants_slot r
        → 0 < s.slots
        → Step s (queued s r)
    fall_asleep :
        {s : Handler P}
        → s.write_at ≡ looking
        → s.respq ≡ []
        → s.eof ≡ false
        → Step s (record s { write_at = sleeping })
    write_ends :
        {s : Handler P}
        → s.write_at ≡ looking
        → s.respq ≡ []
        → s.eof ≡ true
        → Step s (record s { write_at = write_done })
    pop_front :
        {s : Handler P} (r : ParsedRequest) (q : List ParsedRequest)
        → s.write_at ≡ looking
        → s.respq ≡ r ∷ q
        → Step s (record s { respq = q; write_at = answering r })
    write_reply :
        {s : Handler P} (r : ParsedRequest) (reply : Bytes)
        → s.write_at ≡ answering r
        → Step s (replied s r reply)
    -- The future fails, or is not ready after two seconds; or the output stream fails.
    reply_fails :
        {s : Handler P} (r : ParsedRequest) → s.write_at ≡ answering r → Step s (write_failed s)

  pub data Reach (s : Handler P) : Handler P → Type 0 where
    here : Reach s s
    next : {t u : Handler P} → Reach s t → Step t u → Reach s u
