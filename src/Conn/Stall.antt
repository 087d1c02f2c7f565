-- ===== src/Conn/Stall.antt =====
-- How a connection of src/conn/socket_handler.cc comes to a stop before its end: after a failed reply
-- the read loop goes on until its slots are used up.
use shunya_kv.Prelude.{ℕ, zero, suc, ◌+◌, ◌-◌, ◌≡◌, ◌≢◌, refl, ap, none, some, [], ◌++◌, arith}
use shunya_kv.Prelude.Bytes.{Bytes}
use shunya_kv.Resp.{ParsedRequest}
use shunya_kv.Conn.{
  max_inflight, Extracted, extracts, reading, wants_slot, write_done, Handler, fresh_handler, wake,
  queued, Step, read_chunk, extract_waits, extract_request, take_slot, pop_front, reply_fails,
  Reach, here, next,
}
use shunya_kv.Conn.Progress.{IsStuck, not-Step_of_IsStuck}

-- A chunk with one request, of which nothing is left behind.
module _ {P : Type 0} (try_extract_request : P → Bytes → Extracted P) (p : P) (chunk : Bytes)
    (r : ParsedRequest) where
  pub record IsWhole : Type 0 where
    pub some_bytes : chunk ≢ []
    pub one : try_extract_request p chunk ≡ extracts p [] (some r)
    pub no_more : try_extract_request p [] ≡ extracts p [] none

module _ {P : Type 0} (try_extract_request : P → Bytes → Extracted P) (p : P) (chunk : Bytes)
    (r : ParsedRequest) (whole : IsWhole try_extract_request p chunk r) where
  -- A chunk is read, and its request waits for a slot.
  abbrev wanting : Handler P → Handler P
  wanting s = record s {
    buffer = [];
    parser = p;
    read_at = wants_slot r;
    received = s.received ++ chunk;
  }

  module _ {s₀ : Handler P} where
    reach_wanting :
        (s : Handler P)
        → s.read_at ≡ reading
        → s.parser ≡ p
        → s.buffer ≡ []
        → Reach try_extract_request s₀ s
        → Reach try_extract_request s₀ (wanting s)
    reach_wanting s at parser empty run =
        let e : try_extract_request s.parser (s.buffer ++ chunk) ≡ extracts p [] (some r) =
          rw (parser, empty) whole.one in
        next (next run (read_chunk chunk at whole.some_bytes)) (extract_request p [] r refl e)

    exhaust :
        (n : ℕ) (s : Handler P)
        → s.slots ≡ n
        → s.read_at ≡ reading
        → s.parser ≡ p
        → s.buffer ≡ []
        → s.write_at ≡ write_done
        → Reach try_extract_request s₀ s
        → (t : Handler P) × Reach try_extract_request s₀ t × IsStuck t
    exhaust zero s count at parser empty done run =
        (_, reach_wanting s at parser empty run, (done, count, (r, refl)))
    exhaust (suc n) s count at parser empty done run =
        let wants : Reach try_extract_request s₀ (wanting s) =
          reach_wanting s at parser empty run in
        let took : Reach try_extract_request s₀ (queued (wanting s) r) =
          next wants (take_slot r refl (omega (arith, count))) in
        let left : s.slots - 1 ≡ n = omega (arith, count) in
        exhaust n (record (queued (wanting s) r) { read_at = reading }) left refl refl refl
          (ap wake done) (next took (extract_waits p [] refl whole.no_more))

  -- When the peer goes on sending such chunks, and the first reply fails or takes more than two
  -- seconds: a state is reached in which the read loop waits for a slot that never comes, and from
  -- which there is no step; the connection is neither read nor closed.
  pub fresh-IsStuck :
      (s : Handler P) × Reach try_extract_request (fresh_handler p) s
      × IsStuck s
      × ((t : Handler P) → ¬ Step try_extract_request s t)
  fresh-IsStuck =
      let start : Handler P = fresh_handler p in
      let took : Reach try_extract_request start (queued (wanting start) r) =
        next (reach_wanting start refl refl refl here) (take_slot r refl (omega arith)) in
      let failed = next (next took (pop_front r [] refl refl)) (reply_fails r refl) in
      let (s, run, stuck) =
        exhaust (max_inflight - 1 + max_inflight) _ refl refl refl refl refl
          (next failed (extract_waits p [] refl whole.no_more)) in
      (s, run, stuck, λ t. not-Step_of_IsStuck try_extract_request s t stuck)
