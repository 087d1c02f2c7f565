-- ===== src/Conn/Order.antt =====
-- The order of the replies and the limit on requests in flight, in every state that the two loops of
-- src/conn/socket_handler.cc can reach.
use shunya_kv.Prelude.{
  ℕ, ◌+◌, ◌-◌, ◌≤◌, ◌<◌, ◌≡◌, refl, sym, ap, subst, ◌∙◌, Bool, true, false, List, [], ◌∷◌, ◌++◌,
  append-nil, append_assoc, length, length-append, arith,
}
use shunya_kv.Prelude.Bytes.{Bytes}
use shunya_kv.Resp.{ParsedRequest}
use shunya_kv.Conn.{
  max_inflight, Extracted, ReadAt, WriteAt, looking, sleeping, write_done, answering, reading,
  extracting, wants_slot, read_done, Handler, fresh_handler, wake, Step, read_chunk, read_ends,
  extract_waits, extract_request, extract_throws, take_slot, fall_asleep, write_ends, pop_front,
  write_reply, reply_fails, Reach, here, next,
}

abbrev pub Sent : Type 0
Sent = List (ParsedRequest × Bytes)

-- The requests whose replies were written, in the order of writing.
abbrev pub answered : Sent → List ParsedRequest
answered [] = []
answered ((r, b) ∷ l) = r ∷ answered l

-- What the fields say about each other, by the place where the write loop is: the handled requests
-- are the answered ones, then the one in hand, then those in the queue, and each of the latter two
-- holds one of the slots. A write loop at its end has left some requests unanswered, the last ones.
abbrev pub Accounts :
    (handled respq : List ParsedRequest) (sent : Sent) (slots : ℕ) (eof : Bool) → WriteAt → Type 0
Accounts handled respq sent slots eof looking =
    (handled ≡ answered sent ++ respq) × (slots + length respq ≡ max_inflight)
Accounts handled respq sent slots eof sleeping =
    (handled ≡ answered sent) × (slots ≡ max_inflight) × (respq ≡ []) × (eof ≡ false)
Accounts handled respq sent slots eof (answering r) =
    (handled ≡ answered sent ++ r ∷ respq) × (slots + length respq + 1 ≡ max_inflight)
Accounts handled respq sent slots eof write_done =
    (rest : List ParsedRequest) × (handled ≡ answered sent ++ rest)
    × (slots + length respq ≤ max_inflight + max_inflight)
    × (eof ≡ true)

-- The read loop at its end has left its mark.
abbrev pub Marked : ReadAt → Bool → Type 0
Marked read_done eof = eof ≡ true
Marked r eof = Unit

module _ {P : Type 0} where
  pub record IsOrderly (s : Handler P) : Type 0 where
    pub accounts : Accounts s.handled s.respq s.sent s.slots s.eof s.write_at
    pub marked : Marked s.read_at s.eof

pub answered-snoc :
    (l : Sent) (r : ParsedRequest) (b : Bytes) → answered (l ++ (r, b) ∷ []) ≡ answered l ++ r ∷ []
answered-snoc [] r b = refl
answered-snoc ((q, c) ∷ l) r b = ap (◌∷◌ q) (answered-snoc l r b)

-- One more request, behind the others.
behind :
    (handled a b : List ParsedRequest) (r : ParsedRequest)
    → handled ≡ a ++ b
    → handled ++ r ∷ [] ≡ a ++ (b ++ r ∷ [])
behind handled a b r e = ap (λ l. l ++ r ∷ []) e ∙ append_assoc a b (r ∷ [])

queued-Accounts :
    (handled respq : List ParsedRequest) (sent : Sent) (slots : ℕ) (eof : Bool) (w : WriteAt)
    (r : ParsedRequest)
    → 0 < slots
    → Accounts handled respq sent slots eof w
    → Accounts (handled ++ r ∷ []) (respq ++ r ∷ []) sent (slots - 1) eof (wake w)
queued-Accounts handled respq sent slots eof looking r h (order, count) = (
  behind handled (answered sent) respq r order,
  omega (arith, count, h, length-append respq (r ∷ [])),
)
queued-Accounts handled respq sent slots eof sleeping r h (order, count, empty, run) = (
  ap (λ l. l ++ r ∷ []) order ∙ ap (λ q. answered sent ++ (q ++ r ∷ [])) (sym empty),
  omega (arith, count, h, ap length empty, length-append respq (r ∷ [])),
)
queued-Accounts handled respq sent slots eof (answering q) r h (order, count) = (
  behind handled (answered sent) (q ∷ respq) r order,
  omega (arith, count, h, length-append respq (r ∷ [])),
)
queued-Accounts handled respq sent slots eof write_done r h (rest, order, count, ended) = (
  rest ++ r ∷ [],
  behind handled (answered sent) rest r order,
  omega (arith, count, h, length-append respq (r ∷ [])),
  ended,
)

ended-Accounts :
    (handled respq : List ParsedRequest) (sent : Sent) (slots : ℕ) (eof : Bool) (w : WriteAt)
    → Accounts handled respq sent slots eof w
    → Accounts handled respq sent slots true (wake w)
ended-Accounts handled respq sent slots eof looking a = a
ended-Accounts handled respq sent slots eof sleeping (order, count, empty, run) = (
  order ∙ sym (append-nil (answered sent)) ∙ ap (λ q. answered sent ++ q) (sym empty),
  omega (arith, count, ap length empty),
)
ended-Accounts handled respq sent slots eof (answering r) a = a
ended-Accounts handled respq sent slots eof write_done (rest, order, count, ended) =
    (rest, order, count, refl)

Marked-true : (r : ReadAt) (eof : Bool) → Marked r eof → Marked r true
Marked-true reading eof m = tt
Marked-true extracting eof m = tt
Marked-true read_done eof m = refl
Marked-true (wants_slot r) eof m = tt

pub at_place :
    {P : Type 0} (s : Handler P) (w : WriteAt)
    → s.write_at ≡ w
    → IsOrderly s
    → Accounts s.handled s.respq s.sent s.slots s.eof w
at_place s w at o = subst (Accounts s.handled s.respq s.sent s.slots s.eof) at o.accounts

module _ {P : Type 0} (try_extract_request : P → Bytes → Extracted P) where
  Step-IsOrderly : {s t : Handler P} → Step try_extract_request s t → IsOrderly s → IsOrderly t
  Step-IsOrderly (read_chunk chunk at ne) o = record { accounts = o.accounts; marked = tt }
  Step-IsOrderly {s} (read_ends at) o = record {
    accounts = ended-Accounts s.handled s.respq s.sent s.slots s.eof s.write_at o.accounts;
    marked = refl;
  }
  Step-IsOrderly (extract_waits p b at e) o = record { accounts = o.accounts; marked = tt }
  Step-IsOrderly (extract_request p b r at e) o = record { accounts = o.accounts; marked = tt }
  Step-IsOrderly {s} (extract_throws at e) o = record {
    accounts = ended-Accounts s.handled s.respq s.sent s.slots s.eof s.write_at o.accounts;
    marked = refl;
  }
  Step-IsOrderly {s} (take_slot r at h) o = record {
    accounts = queued-Accounts s.handled s.respq s.sent s.slots s.eof s.write_at r h o.accounts;
    marked = tt;
  }
  Step-IsOrderly {s} (fall_asleep at empty run) o =
      let (order, count) = at_place s looking at o in
      record {
        accounts = (
          order ∙ ap (λ q. answered s.sent ++ q) empty ∙ append-nil (answered s.sent),
          omega (arith, count, ap length empty),
          empty,
          run,
        );
        marked = o.marked;
      }
  Step-IsOrderly {s} (write_ends at empty ended) o =
      let (order, count) = at_place s looking at o in
      record { accounts = (s.respq, order, omega (arith, count), ended); marked = o.marked }
  Step-IsOrderly {s} (pop_front r q at front) o =
      let (order, count) = at_place s looking at o in
      record {
        accounts =
            (order ∙ ap (λ l. answered s.sent ++ l) front, omega (arith, count, ap length front));
        marked = o.marked;
      }
  Step-IsOrderly {s} (write_reply r reply at) o =
      let (order, count) = at_place s (answering r) at o in
      record {
        accounts = (
          order
              ∙ sym (append_assoc (answered s.sent) (r ∷ []) s.respq)
              ∙ ap (λ l. l ++ s.respq) (sym (answered-snoc s.sent r reply)),
          omega (arith, count),
        );
        marked = o.marked;
      }
  Step-IsOrderly {s} (reply_fails r at) o =
      let (order, count) = at_place s (answering r) at o in
      record {
        accounts = (r ∷ s.respq, order, omega (arith, count), refl);
        marked = Marked-true s.read_at s.eof o.marked;
      }

  fresh-IsOrderly : (p : P) → IsOrderly (fresh_handler p)
  fresh-IsOrderly p = record { accounts = (refl, refl); marked = tt }

  -- In every state that a connection can reach from its start, whatever the peer sends, in whatever
  -- order the loops run, and whatever fails: the replies that were written answer the first handled
  -- requests, in their order; while the write loop runs, the rest are the one in hand and those in the
  -- queue, and with the free slots these make 1024; after its end
  -- the queue and the slots make no more than twice that;
  -- the write loop sleeps only with an empty queue and before the end of the input.
  pub Reach-IsOrderly :
      (p : P) {s : Handler P} → Reach try_extract_request (fresh_handler p) s → IsOrderly s
  Reach-IsOrderly p here = fresh-IsOrderly p
  Reach-IsOrderly p (next r st) = Step-IsOrderly st (Reach-IsOrderly p r)
