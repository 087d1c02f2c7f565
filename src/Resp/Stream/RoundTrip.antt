-- ===== src/Resp/Stream/RoundTrip.antt =====
-- The parser reads back what src/resp/resp_writer.cc writes as an array of bulk strings.
use shunya_kv.Prelude.{
  ℕ, ◌+◌, ◌-◌, ◌^◌, ◌≤◌, ◌<◌, ◌≡◌, refl, sym, ap, ◌∙◌, some, List, [], ◌∷◌, ◌++◌, arith, length,
  All, take, drop, length-drop, length-append, take_append_length, append-nil, subst,
}
use shunya_kv.Prelude.Bytes.{Bytes, cr, lf}
use shunya_kv.Resp.Writer.{IsDecimal, write_array_bulk}
use shunya_kv.Resp.Writer.Frames.{items_then, write_array_bulk-items_then}
use shunya_kv.Resp.Stream.{
  Processor, need_star, need_argc, need_dollar, compact_if_needed, Outcome, returns, stop,
  try_extract_request, step, dispatch, step_star, step_argc, finish, cut_slices, max_args, max_bulk,
}
use shunya_kv.Resp.Stream.Parts.{drop-compact_if_needed, compact_if_needed_le, compact_if_needed_lt}
use shunya_kv.Resp.Stream.Numbers.{drop_after, lt_of_drop, byte_at-drop, parse_int_crlf-value}
use shunya_kv.Resp.Stream.Runs.{Runs, goes, try_extract_request-Runs}
use shunya_kv.Resp.Stream.AtEnd.{items-AtEnd}
use shunya_kv.Resp.Stream.Slices.{cut_slices-slices_from}

module _ (to_sstring : ℕ → Bytes) (decimal : IsDecimal to_sstring) where
  header-Runs :
      (p : Processor) (buf tail : Bytes) (n : ℕ) {o : Outcome}
      → p.st ≡ need_star
      → 0 < n
      → n ≤ max_args
      → drop p.pos buf ≡ b'*' ∷ (to_sstring n ++ cr ∷ lf ∷ tail)
      → Runs buf
          (record p {
            cmd_start = p.pos;
            pos = p.pos + 1 + length (to_sstring n) + 2;
            argc = n;
            argi = 0;
            slices = [];
            st = need_dollar;
          })
          o
      → Runs buf p o
  unfolding step dispatch step_star step_argc
  header-Runs p buf tail n st pos small e r =
      let e1 = drop_after buf p.pos (b'*' ∷ []) (to_sstring n ++ cr ∷ lf ∷ tail) e in
      let exact = decimal.exact n in
      let read =
        parse_int_crlf-value buf (p.pos + 1) (to_sstring n) tail (decimal.some_digit n)
          (decimal.digits n) (omega (arith, exact)) e1 in
      goes {p' = record p { cmd_start = p.pos; pos = p.pos + 1; st = need_argc }}
        (ground (arith, st, lt_of_drop buf p.pos _ _ e, byte_at-drop buf p.pos _ _ e))
        (goes (ground (arith, exact, read)) r)

  finish_lem :
      (q : Processor) (buf frame rest : Bytes) (args : List Bytes)
      → drop q.cmd_start buf ≡ frame ++ rest
      → drop q.pos buf ≡ rest
      → q.pos ≤ length buf
      → q.cmd_start ≤ length buf
      → cut_slices frame q.cmd_start q.slices ≡ some args
      → finish q buf
        ≡ stop (
            returns
              (record q { st = need_star; pos = (compact_if_needed buf q.pos).1 })
              (compact_if_needed buf q.pos).0
              (some (record { frame = frame; argv = args })))
  unfolding finish
  finish_lem q buf frame rest args e left inside start cut =
      let len : q.pos - q.cmd_start ≡ length frame = omega (
        arith,
        ap length e,
        ap length left,
        length-drop q.cmd_start buf,
        length-drop q.pos buf,
        length-append frame rest,
      ) in
      let got : take (q.pos - q.cmd_start) (drop q.cmd_start buf) ≡ frame =
        rw (len, e) (take_append_length frame rest) in
      let cut' = subst (λ f. cut_slices f q.cmd_start q.slices ≡ some args) (sym got) cut in
      rw (cut', finish) (rw got)

  items_of_frame :
      (args : List Bytes)
      → drop (1 + length (to_sstring (length args)) + 2) (write_array_bulk to_sstring [] args)
        ≡ items_then to_sstring args []
  items_of_frame args =
      let dec = to_sstring (length args) in
      let frame = write_array_bulk to_sstring [] args in
      let e = sym (append-nil frame) ∙ write_array_bulk-items_then to_sstring args [] in
      let e1 = drop_after frame 0 (b'*' ∷ []) (dec ++ cr ∷ lf ∷ items_then to_sstring args []) e in
      let e2 = drop_after frame 1 dec (cr ∷ lf ∷ items_then to_sstring args []) e1 in
      drop_after frame (1 + length dec) (cr ∷ lf ∷ []) (items_then to_sstring args []) e2

  -- A parser between two requests that finds in the buffer, from its position on, the array of bulk
  -- strings that `write_array_bulk` writes for `args`, and any bytes behind it, returns the request
  -- with these very arguments and with the written bytes as its frame. It is then between requests, at a
  -- position of its buffer below 4096, and the bytes behind the array are what is left to read. There are to be between 1 and 1024
  -- arguments of at most 64 MiB each, and the frame is to end below offset 2^32 of the buffer.
  pub try_extract_request-write_array_bulk :
      (p : Processor) (buf : Bytes) (args : List Bytes) (rest : Bytes)
      → p.st ≡ need_star
      → p.pos ≤ length buf
      → 0 < length args
      → length args ≤ max_args
      → All (λ b. length b ≤ max_bulk) args
      → p.pos + length (write_array_bulk to_sstring [] args) < 2 ^ 32
      → drop p.pos buf ≡ write_array_bulk to_sstring [] args ++ rest
      → (q : Processor) × (buf' : Bytes) × (try_extract_request p buf
          ≡ some (
              returns q buf'
                (some (record { frame = write_array_bulk to_sstring [] args; argv = args }))))
        × (q.st ≡ need_star)
        × (q.pos ≤ length buf')
        × (q.pos < 4096)
        × (drop q.pos buf' ≡ rest)
  try_extract_request-write_array_bulk p buf [] rest st fits pos few small low e =
      absurd (omega arith)
  try_extract_request-write_array_bulk p buf (a ∷ args) rest st fits pos few small low e =
      let n = length (a ∷ args) in
      let dec = to_sstring n in
      let frame = write_array_bulk to_sstring [] (a ∷ args) in
      let items = items_then to_sstring (a ∷ args) rest in
      let e0 = e ∙ write_array_bulk-items_then to_sstring (a ∷ args) rest in
      let e1 = drop_after buf p.pos (b'*' ∷ []) (dec ++ cr ∷ lf ∷ items) e0 in
      let e2 = drop_after buf (p.pos + 1) dec (cr ∷ lf ∷ items) e1 in
      let e3 = drop_after buf (p.pos + 1 + length dec) (cr ∷ lf ∷ []) items e2 in
      let p' = record p {
        cmd_start = p.pos;
        pos = p.pos + 1 + length dec + 2;
        argc = n;
        argi = 0;
        slices = [];
        st = need_dollar;
      } in
      let end = items-AtEnd to_sstring decimal args a p' buf rest refl (omega arith) small e3 in
      let q = end.last in
      let at : p.pos + 1 + length dec + 2 - p.pos ≡ 1 + length dec + 2 = omega arith in
      let cut =
        cut_slices-slices_from to_sstring decimal frame p.pos p'.pos (a ∷ args) (omega arith) low
          (rw at (items_of_frame (a ∷ args))) in
      let fin =
        finish_lem q buf frame rest (a ∷ args) (rw end.same_start e) end.left end.inside
          (rw end.same_start fits) (rw (end.same_start, end.all_slices) cut) in
      (
        record q { st = need_star; pos = (compact_if_needed buf q.pos).1 },
        (compact_if_needed buf q.pos).0,
        (try_extract_request-Runs p buf _ fits).1
            (header-Runs p buf items n st pos few e0 (end.finishes _ fin)),
        refl,
        compact_if_needed_le buf q.pos end.inside,
        compact_if_needed_lt buf q.pos,
        drop-compact_if_needed buf q.pos ∙ end.left,
      )
