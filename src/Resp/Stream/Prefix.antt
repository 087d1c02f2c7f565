-- ===== src/Resp/Stream/Prefix.antt =====
-- A call of the stream parser on the beginning of a request waits for the rest of it.
use shunya_kv.Prelude.{
  ℕ, ◌+◌, ◌^◌, ◌≤◌, ◌<◌, ◌≡◌, ◌≢◌, sym, ap, ◌∙◌, inl, inr, none, some, some-injective, List, [],
  ◌∷◌, ◌++◌, arith, length, drop, drop-append_le, append-nil, length-append, All, subst,
}
use shunya_kv.Prelude.Bytes.{Bytes}
use shunya_kv.Resp.Writer.{IsDecimal, write_array_bulk}
use shunya_kv.Resp.Stream.RoundTrip.{try_extract_request-write_array_bulk}
use shunya_kv.Resp.Stream.{
  Processor, St, need_star, need_argc, need_dollar, need_bulk_len, need_bulk_data, need_bulk_crlf,
  parse_int_crlf, Outcome, returns, out_of_range, again, stop, resync_with, step, dispatch,
  step_star, step_argc, step_dollar, finish, step_bulk_len, step_bulk_data, step_bulk_crlf,
  max_args, max_bulk, work, try_extract_request,
}
use shunya_kv.Resp.Stream.Progress.{
  Progresses, step-Progresses, IntResult-cases, try_extract_request-Progresses,
}
use shunya_kv.Resp.Stream.Runs.{Runs, ends, goes, try_extract_request-Runs}
use shunya_kv.Resp.Stream.Waits.{compact_at_end, WaitIter, step-WaitIter}
use shunya_kv.Resp.Stream.Resume.{try_extract_request_resume}
use shunya_kv.Resp.Stream.Decided.{Keeps, Runs-Keeps}

-- A round that goes on is in the middle of a request.
dispatch-inside :
    (st : St) (p : Processor) (buf : Bytes) {q : Processor}
    → dispatch st p buf ≡ again q
    → q.st ≢ need_star
unfolding dispatch step_star step_argc step_dollar step_bulk_len step_bulk_data step_bulk_crlf
    resync_with finish
dispatch-inside need_star p buf e = ground arith
dispatch-inside need_argc p buf e = elim (IntResult-cases (parse_int_crlf buf p.pos)) [
  | inl h ↦ ground (arith, h)
  | inr (inl h) ↦ ground (arith, h)
  | inr (inr (v, k, h)) ↦ ground (arith, h)
]
dispatch-inside need_dollar p buf e = ground arith
dispatch-inside need_bulk_len p buf e = elim (IntResult-cases (parse_int_crlf buf p.pos)) [
  | inl h ↦ ground (arith, h)
  | inr (inl h) ↦ ground (arith, h)
  | inr (inr (v, k, h)) ↦ ground (arith, h)
]
dispatch-inside need_bulk_data p buf e = ground arith
dispatch-inside need_bulk_crlf p buf e = ground arith

step-inside :
    (p : Processor) (buf : Bytes) {q : Processor} → step p buf ≡ again q → q.st ≢ need_star
unfolding step
step-inside p buf e = dispatch-inside p.st p buf e

-- A wait that begins in the middle of a request does not end between two.
inside_waits :
    (buf : Bytes) {p : Processor} {q : Processor} {b : Bytes}
    → p.pos ≤ length buf
    → p.st ≢ need_star
    → Runs buf p (returns q b none)
    → q.st ≢ need_star
inside_waits buf {p} {q} {b} fits inside (ends h) =
    elim (subst (WaitIter p buf) h (step-WaitIter p buf fits)) [
      | inl (same, kept, mid) ↦ λ k. inside (sym (ap (λ z. z.st) same) ∙ k)
      | inr (st, pos, empty, outside) ↦ λ k. inside outside
    ]
inside_waits buf {p} fits inside (goes h r) =
    let (less, fits') = subst (Progresses (work p buf) buf) h (step-Progresses p buf fits) in
    inside_waits buf fits' (step-inside p buf h) r

step_star-ne-wait :
    (p q : Processor) (buf b : Bytes)
    → p.pos < length buf
    → step_star p buf ≢ stop (returns q b none)
unfolding step_star
step_star-ne-wait p q buf b h e = ground arith

-- A wait that begins between two requests, with bytes to read, ends in the middle of one.
star_waits :
    (buf : Bytes) {p : Processor} {q : Processor} {b : Bytes}
    → p.pos < length buf
    → p.st ≡ need_star
    → Runs buf p (returns q b none)
    → q.st ≢ need_star
unfolding step dispatch
star_waits buf {p} {q} {b} h st (ends e) =
    absurd (step_star-ne-wait p q buf b h (ap (λ z. dispatch z p buf) (sym st) ∙ e))
star_waits buf {p} h st (goes e r) =
    let (less, fits') =
      subst (Progresses (work p buf) buf) e (step-Progresses p buf (omega arith)) in
    inside_waits buf fits' (step-inside p buf e) r

pub nil_right : (s t : Bytes) → s ++ t ≡ [] → t ≡ []
nil_right [] t e = e
nil_right (c ∷ s) t e = cc

-- The outcome on the beginning of a request, where the outcome on the whole is known.
module _ (to_sstring : ℕ → Bytes) (p q1 : Processor) (buf b1 more : Bytes) (args : List Bytes)
    (inside : p.pos < length buf) (st : p.st ≡ need_star) (few : 0 < length args)
    (left : drop q1.pos b1 ≡ []) (missing : more ≢ []) where
  abbrev whole : Outcome
  whole = returns q1 b1 (some (record { frame = write_array_bulk to_sstring [] args; argv = args }))

  ends_waiting :
      (o : Outcome)
      → try_extract_request p buf ≡ some o
      → Runs buf p o
      → Keeps more o (Runs (buf ++ more) p)
      → ((o' : Outcome) → Runs (buf ++ more) p o' → o' ≡ whole)
      → (q : Processor) × (try_extract_request p buf ≡ some (returns q buf none))
        × ((later : Bytes)
            → try_extract_request q (buf ++ later) ≡ try_extract_request p (buf ++ later))
  ends_waiting (returns q b none) run rounds keeps unique =
      let resume = λ (later : Bytes).
        try_extract_request_resume p q buf b (omega arith) run later
          (star_waits buf inside st rounds) in
      let kept = (resume []).0 in
      (
        q,
        run ∙ ap (λ z. some (returns q z none)) kept,
        λ later. ap (λ z. try_extract_request q (z ++ later)) (sym kept) ∙ (resume later).1,
      )
  ends_waiting (returns q b (some r)) run rounds (q', b', r', inl none_left) unique =
      let same : r ≡ record { frame = write_array_bulk to_sstring [] args; argv = args } =
        cc (unique _ r') in
      let empty : args ≡ [] = sym (ap (λ z. z.argv) same) ∙ none_left in
      absurd (omega (arith, ap length empty))
  ends_waiting (returns q b (some r)) run rounds (q', b', r', inr unread) unique =
      let here : q' ≡ q1 = cc (unique _ r') in
      let there : b' ≡ b1 = cc (unique _ r') in
      let none_left : drop q'.pos b' ≡ [] =
        ap (λ z. drop z.pos b') here ∙ ap (drop q1.pos) there ∙ left in
      absurd (missing (nil_right (drop q.pos b) more (sym unread ∙ none_left)))
  ends_waiting out_of_range run rounds keeps unique = let e = unique _ keeps in absurd (cc)

module _ (to_sstring : ℕ → Bytes) (decimal : IsDecimal to_sstring) where
  -- With `more` bytes still missing of a written request, a call waits, and the call that is made
  -- when they or others have come is a call on all the bytes.
  pub try_extract_request-prefix :
      (p : Processor) (buf more : Bytes) (args : List Bytes)
      → p.st ≡ need_star
      → p.pos < length buf
      → 0 < length args
      → length args ≤ max_args
      → All (λ b. length b ≤ max_bulk) args
      → p.pos + length (write_array_bulk to_sstring [] args) < 2 ^ 32
      → drop p.pos buf ++ more ≡ write_array_bulk to_sstring [] args
      → more ≢ []
      → (q : Processor) × (try_extract_request p buf ≡ some (returns q buf none))
        × ((later : Bytes)
            → try_extract_request q (buf ++ later) ≡ try_extract_request p (buf ++ later))
  try_extract_request-prefix p buf more args st inside few most small low e missing =
      let frame = write_array_bulk to_sstring [] args in
      let fits : p.pos ≤ length buf = omega arith in
      let longer = length-append buf more in
      let all : drop p.pos (buf ++ more) ≡ frame ++ [] =
        drop-append_le p.pos buf more fits ∙ e ∙ sym (append-nil frame) in
      let (q1, b1, got, st1, in1, at1, left1) =
        try_extract_request-write_array_bulk to_sstring decimal p (buf ++ more) args [] st
          (omega (arith, longer)) few most small low all in
      let (o, run, _) = try_extract_request-Progresses p buf in
      let rounds = (try_extract_request-Runs p buf o fits).0 run in
      let unique : (o' : Outcome)
          → Runs (buf ++ more) p o'
          → o' ≡ returns q1 b1 (some (record { frame = frame; argv = args })) =
        λ o' r.
          some-injective _ _ (
            sym ((try_extract_request-Runs p (buf ++ more) o' (omega (arith, longer))).1 r)
            ∙ got) in
      ends_waiting to_sstring p q1 buf b1 more args inside st few left1 missing o run rounds
        (Runs-Keeps buf more fits rounds) unique

-- Between two requests with nothing to read, a call waits and empties the buffer.
pub try_extract_request-idle :
    (p : Processor) (buf : Bytes)
    → p.st ≡ need_star
    → p.pos ≡ length buf
    → try_extract_request p buf ≡ some (returns (record p { pos = 0 }) [] none)
unfolding step dispatch step_star
try_extract_request-idle p buf st at =
    let (zero_pos, empty) = compact_at_end buf p.pos (omega arith) (omega arith) in
    (try_extract_request-Runs p buf _ (omega arith)).1
      (ends (ground (arith, st, at, zero_pos, empty)))
