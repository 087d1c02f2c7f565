-- ===== src/Conn/Requests/Handled.antt =====
-- The requests that a RESP connection handles, in every state that its two loops can reach: those that
-- the peer sent, src/conn/socket_handler.cc with src/conn/resp_handler.cc.
use shunya_kv.Prelude.{
  ℕ, ◌≡◌, refl, sym, ap, ◌∙◌, inl, inr, Option, none, some, some-injective, List, [], ◌∷◌, ◌++◌,
  append-nil, append_assoc, append_cancel_right, arith, length, length-append, drop, drop-append_le,
  All, subst,
}
use shunya_kv.Prelude.Bytes.{Bytes}
use shunya_kv.Resp.{ParsedRequest}
use shunya_kv.Resp.Writer.{IsDecimal, write_array_bulk}
use shunya_kv.Resp.Writer.Frames.{write_array_bulk-items_then}
use shunya_kv.Resp.Stream.{Processor, fresh, try_extract_request}
use shunya_kv.Conn.{
  WriteAt, looking, sleeping, answering, write_done, ReadAt, reading, extracting, wants_slot,
  read_done, Handler, fresh_handler, Step, read_chunk, read_ends, extract_waits, extract_request,
  extract_throws, take_slot, fall_asleep, write_ends, pop_front, write_reply, reply_fails, Reach,
  here, next, extracts,
}
use shunya_kv.Conn.Order.{Accounts, IsOrderly, Reach-IsOrderly, answered}
use shunya_kv.Conn.Requests.{extract_resp, Fits, wire, request, requests}
use shunya_kv.Conn.Requests.Sync.{IsSync, IsWaiting, Extraction, extract_resp-Extraction}

All-right {ℓ κ} : {A : Type ℓ} (P : A → Type κ) (xs ys : List A) → All P (xs ++ ys) → All P ys
All-right P [] ys a = a
All-right P (x ∷ xs) ys (a, as') = All-right P xs ys as'

module _ (to_sstring : ℕ → Bytes) where
  wire-append :
      (a b : List (List Bytes)) → wire to_sstring (a ++ b) ≡ wire to_sstring a ++ wire to_sstring b
  wire-append [] b = refl
  wire-append (args ∷ a) b =
      ap (λ z. write_array_bulk to_sstring [] args ++ z) (wire-append a b)
      ∙ sym (
          append_assoc (write_array_bulk to_sstring [] args) (wire to_sstring a)
            (wire to_sstring b))

  requests-append :
      (a b : List (List Bytes))
      → requests to_sstring (a ++ b) ≡ requests to_sstring a ++ requests to_sstring b
  requests-append [] b = refl
  requests-append (args ∷ a) b = ap (◌∷◌ (request to_sstring args)) (requests-append a b)

  nothing_read : (sent : List (List Bytes)) → IsWaiting to_sstring sent []
  nothing_read [] = refl
  nothing_read (args ∷ more) =
      let frame = write_array_bulk to_sstring [] args in
      omega
        (arith, ap length (write_array_bulk-items_then to_sstring args []), length-append frame [])

  -- A chunk arrives.
  IsSync-chunk :
      (parser : Processor) (buffer chunk : Bytes) (rest : List (List Bytes)) (future : Bytes)
      → IsSync to_sstring parser buffer rest (chunk ++ future)
      → IsSync to_sstring parser (buffer ++ chunk) rest future
  IsSync-chunk parser buffer chunk rest future s = record {
    start = s.start;
    between = s.between;
    inside = omega (arith, s.inside, length-append buffer chunk);
    low = s.low;
    same = λ later.
        subst (λ b. try_extract_request parser b ≡ try_extract_request s.start b)
          (sym (append_assoc buffer chunk later)) (s.same (chunk ++ later));
    unread =
        ap (λ z. z ++ future) (drop-append_le s.start.pos buffer chunk s.inside)
        ∙ append_assoc (drop s.start.pos buffer) chunk future
        ∙ s.unread;
  }

  -- Where the read loop is, by its place: `rest` are the requests that it has still to hand on.
  abbrev Place : ReadAt → Processor → Bytes → List (List Bytes) → (future : Bytes) → Type 0
  Place reading parser buffer rest future =
      (y : IsSync to_sstring parser buffer rest future) × IsWaiting to_sstring rest
        (drop y.start.pos buffer)
  Place extracting parser buffer rest future = IsSync to_sstring parser buffer rest future
  Place (wants_slot r) parser buffer rest future =
      (args : List Bytes) × (more : List (List Bytes)) × (rest ≡ args ∷ more)
      × (r ≡ request to_sstring args)
      × IsSync to_sstring parser buffer more future
  Place read_done parser buffer rest future = Unit {0}

  record Tracks (sent : List (List Bytes)) (s : Handler Processor) (future : Bytes) : Type 0 where
    done : List (List Bytes)
    rest : List (List Bytes)
    split : sent ≡ done ++ rest
    handled : s.handled ≡ requests to_sstring done
    place : Place s.read_at s.parser s.buffer rest future

extracts-injective :
    {p q : Processor} {b c : Bytes} {r r' : Option ParsedRequest}
    → extracts p b r ≡ extracts q c r'
    → (p ≡ q) × (b ≡ c) × (r ≡ r')
extracts-injective e = (cc (e), cc (e), cc (e))

answered_first :
    {s : Handler Processor}
    → IsOrderly s
    → (unanswered : List ParsedRequest) × (s.handled ≡ answered s.sent ++ unanswered)
answered_first {s} o = go s.write_at o.accounts
  where
    go :
        (w : WriteAt)
        → Accounts s.handled s.respq s.sent s.slots s.eof w
        → (unanswered : List ParsedRequest) × (s.handled ≡ answered s.sent ++ unanswered)
    go looking (order, count) = (s.respq, order)
    go sleeping (order, count, empty, running) = ([], order ∙ sym (append-nil (answered s.sent)))
    go (answering r) (order, count) = (r ∷ s.respq, order)
    go write_done (rest, order, count, ended) = (rest, order)

module _ (to_sstring : ℕ → Bytes) (decimal : IsDecimal to_sstring) (sent : List (List Bytes))
    (fits : All (Fits to_sstring) sent) where
  abbrev Tracked : Handler Processor → Type 0
  Tracked s =
      (future : Bytes)
      → s.received ++ future ≡ wire to_sstring sent
      → Tracks to_sstring sent s future

  called :
      (s : Handler Processor) (future : Bytes) (k : Tracks to_sstring sent s future)
      → s.read_at ≡ extracting
      → Extraction to_sstring s.parser s.buffer k.rest future
  called s future k at =
      extract_resp-Extraction to_sstring decimal s.parser s.buffer future k.rest
        (All-right (Fits to_sstring) k.done k.rest (subst (All (Fits to_sstring)) k.split fits))
        (subst (λ w. Place to_sstring w s.parser s.buffer k.rest future) at k.place)

  extract_waits-Place :
      (s : Handler Processor) (future : Bytes) (rest : List (List Bytes)) (p : Processor)
      (b : Bytes)
      → extract_resp s.parser s.buffer ≡ extracts p b none
      → Extraction to_sstring s.parser s.buffer rest future
      → Place to_sstring reading p b rest future
  extract_waits-Place s future rest p b e (inl (q, c, args, more, split, got, y)) =
      absurd (cc (sym e ∙ got))
  extract_waits-Place s future rest p b e (inr (q, c, got, y, w)) =
      let (same, left, _) = extracts-injective (sym e ∙ got) in
      subst (λ z. Place to_sstring reading z b rest future) (sym same)
        (subst (λ z. Place to_sstring reading q z rest future) (sym left) (y, w))

  extract_request-Place :
      (s : Handler Processor) (future : Bytes) (rest : List (List Bytes)) (p : Processor)
      (b : Bytes) (r : ParsedRequest)
      → extract_resp s.parser s.buffer ≡ extracts p b (some r)
      → Extraction to_sstring s.parser s.buffer rest future
      → Place to_sstring (wants_slot r) p b rest future
  extract_request-Place s future rest p b r e (inl (q, c, args, more, split, got, y)) =
      let (same, left, same_r) = extracts-injective (sym e ∙ got) in
      (
        args,
        more,
        split,
        some-injective _ _ same_r,
        subst (λ z. IsSync to_sstring z b more future) (sym same)
            (subst (λ z. IsSync to_sstring q z more future) (sym left) y),
      )
  extract_request-Place s future rest p b r e (inr (q, c, got, y, w)) = absurd (cc (sym e ∙ got))

  Step-Tracked : {s t : Handler Processor} → Step extract_resp s t → Tracked s → Tracked t
  Step-Tracked {s} (read_chunk chunk at ne) before future e =
      let k = before (chunk ++ future) (sym (append_assoc s.received chunk future) ∙ e) in
      let (y, w) =
        subst (λ z. Place to_sstring z s.parser s.buffer k.rest (chunk ++ future)) at k.place in
      record {
        done = k.done;
        rest = k.rest;
        split = k.split;
        handled = k.handled;
        place = IsSync-chunk to_sstring s.parser s.buffer chunk k.rest future y;
      }
  Step-Tracked (read_ends at) before future e =
      let k = before future e in
      record { done = k.done; rest = k.rest; split = k.split; handled = k.handled; place = tt }
  Step-Tracked {s} (extract_waits p b at h) before future e =
      let k = before future e in
      record {
        done = k.done;
        rest = k.rest;
        split = k.split;
        handled = k.handled;
        place = extract_waits-Place s future k.rest p b h (called s future k at);
      }
  Step-Tracked {s} (extract_request p b r at h) before future e =
      let k = before future e in
      record {
        done = k.done;
        rest = k.rest;
        split = k.split;
        handled = k.handled;
        place = extract_request-Place s future k.rest p b r h (called s future k at);
      }
  Step-Tracked (extract_throws at h) before future e =
      let k = before future e in
      record { done = k.done; rest = k.rest; split = k.split; handled = k.handled; place = tt }
  Step-Tracked {s} (take_slot r at h) before future e =
      let k = before future e in
      let (args, more, split, same, y) =
        subst (λ z. Place to_sstring z s.parser s.buffer k.rest future) at k.place in
      record {
        done = k.done ++ args ∷ [];
        rest = more;
        split = k.split ∙ ap (λ z. k.done ++ z) split ∙ sym (append_assoc k.done (args ∷ []) more);
        handled =
            ap (λ z. z ++ r ∷ []) k.handled
            ∙ ap (λ z. requests to_sstring k.done ++ z ∷ []) same
            ∙ sym (requests-append to_sstring k.done (args ∷ []));
        place = y;
      }
  Step-Tracked (fall_asleep at empty run) before future e =
      let k = before future e in
      record { done = k.done; rest = k.rest; split = k.split; handled = k.handled; place = k.place }
  Step-Tracked (write_ends at empty ended) before future e =
      let k = before future e in
      record { done = k.done; rest = k.rest; split = k.split; handled = k.handled; place = k.place }
  Step-Tracked (pop_front r q at front) before future e =
      let k = before future e in
      record { done = k.done; rest = k.rest; split = k.split; handled = k.handled; place = k.place }
  Step-Tracked (write_reply r reply at) before future e =
      let k = before future e in
      record { done = k.done; rest = k.rest; split = k.split; handled = k.handled; place = k.place }
  Step-Tracked (reply_fails r at) before future e =
      let k = before future e in
      record { done = k.done; rest = k.rest; split = k.split; handled = k.handled; place = k.place }

  fresh-Tracked : Tracked (fresh_handler fresh)
  fresh-Tracked future e = record {
    done = [];
    rest = sent;
    split = refl;
    handled = refl;
    place = (
      record {
        start = fresh;
        between = refl;
        inside = omega arith;
        low = omega arith;
        same = λ later. refl;
        unread = e;
      },
      nothing_read to_sstring sent,
    );
  }

  Reach-Tracked : {s : Handler Processor} → Reach extract_resp (fresh_handler fresh) s → Tracked s
  Reach-Tracked here = fresh-Tracked
  Reach-Tracked (next r st) = Step-Tracked st (Reach-Tracked r)

  module _ {s : Handler Processor} (run : Reach extract_resp (fresh_handler fresh) s)
      (future : Bytes) (heard : s.received ++ future ≡ wire to_sstring sent) where
    -- A peer sends requests, each written as an array of bulk strings within the limits `Fits`,
    -- and a connection with the RESP hook has received the first of these bytes, in whatever chunks. In
    -- every state that it can reach, whatever has failed, the requests that were handed to
    -- `handle_request` are the first of those that were sent, with their arguments and frames, and the
    -- replies that were written answer the first of these, all in the order of sending.
    pub Reach-handled :
        (done : List (List Bytes)) × (rest : List (List Bytes)) × (unanswered : List ParsedRequest)
        × (sent ≡ done ++ rest)
        × (s.handled ≡ requests to_sstring done)
        × (requests to_sstring done ≡ answered s.sent ++ unanswered)
    Reach-handled =
        let k = Reach-Tracked run future heard in
        let (unanswered, order) = answered_first (Reach-IsOrderly extract_resp fresh run) in
        (k.done, k.rest, unanswered, k.split, k.handled, sym k.handled ∙ order)

    -- When such a connection is about to read more, every request whose bytes have all been received
    -- has been handed to `handle_request`: the received bytes are those of the handled requests and
    -- then too few for the next one, or none where there is no next one.
    pub Reach-caught_up :
        s.read_at ≡ reading
        → (done : List (List Bytes)) × (rest : List (List Bytes)) × (partial : Bytes) × (sent
            ≡ done ++ rest)
          × (s.handled ≡ requests to_sstring done)
          × (s.received ≡ wire to_sstring done ++ partial)
          × IsWaiting to_sstring rest partial
    Reach-caught_up at =
        let k = Reach-Tracked run future heard in
        let (y, waiting) =
          subst (λ z. Place to_sstring z s.parser s.buffer k.rest future) at k.place in
        let partial = drop y.start.pos s.buffer in
        let all : s.received ++ future ≡ (wire to_sstring k.done ++ partial) ++ future =
          heard
          ∙ ap (wire to_sstring) k.split
          ∙ wire-append to_sstring k.done k.rest
          ∙ ap (λ z. wire to_sstring k.done ++ z) (sym y.unread)
          ∙ sym (append_assoc (wire to_sstring k.done) partial future) in
        (
          k.done,
          k.rest,
          partial,
          k.split,
          k.handled,
          append_cancel_right s.received (wire to_sstring k.done ++ partial) future all,
          waiting,
        )
