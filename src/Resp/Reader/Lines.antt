-- ===== src/Resp/Reader/Lines.antt =====
-- Lines and payloads: what `read_line_crlf` and `read_bulk` of src/resp/resp_parser.cc give, wherever
-- the chunks of the stream end.
use shunya_kv.Prelude.{
  ℕ, suc, ◌+◌, ◌-◌, ◌≤◌, ◌<◌, ◌≡◌, ◌≢◌, inl, inr, refl, sym, ap, ◌∙◌, false, some, [], ◌∷◌, ◌++◌,
  append-nil, arith, length, take, drop, length-drop, length-append, take-append_le, drop-drop,
  take_append_length, drop_append_length, All, ltb, leb, ◌==◌, Option-cases,
}
use shunya_kv.Prelude.Bytes.{Bytes, byte_at, byte_at-append, cr, lf}
use shunya_kv.Resp.Chars.{digits-no-cr, from_chars_i64, from_chars_i64_digits, whole, no_length}
use shunya_kv.Resp.Writer.{IsDecimal}
use shunya_kv.Resp.Stream.{int64_min, max_bulk, word}
use shunya_kv.Resp.Reader.{
  Reader, Chunks, gives, size, view, receive, advance, ensure, find_crlf, cut_line, read_line_crlf,
  int_of_line, read_int_line, read_payload, bulk_of_len, bulk_of_line, read_bulk,
}
use shunya_kv.Resp.Reader.Moves.{
  concat, Unread, Gives, Gives->>=, receive-Unread, advance-Unread, ensure-Unread,
}

-- A line end that was found is found at the same place when more bytes follow, and lies within.
find_crlf_lt : (s : Bytes) {i : ℕ} → find_crlf s ≡ some i → i + 2 ≤ length s
unfolding find_crlf
find_crlf_lt [] e = cc
find_crlf_lt (c ∷ []) {i} e = ground (arith, e)
find_crlf_lt (c ∷ d ∷ s) {i} e = elim (Option-cases (find_crlf (d ∷ s))) [
  | inl n ↦ ground (arith, n, e)
  | inr (j, f) ↦ ground (arith, f, e, find_crlf_lt (d ∷ s) f)
]

find_crlf-append : (s t : Bytes) {i : ℕ} → find_crlf s ≡ some i → find_crlf (s ++ t) ≡ some i
unfolding find_crlf
find_crlf-append [] t e = cc
find_crlf-append (c ∷ []) t {i} e = ground (arith, e)
find_crlf-append (c ∷ d ∷ s) t {i} e = elim (Option-cases (find_crlf (d ∷ s))) [
  | inl n ↦ ground (arith, n, e)
  | inr (j, f) ↦ ground (arith, f, e, find_crlf-append (d ∷ s) t f)
]

-- Behind a line without a carriage return.
find_crlf_here :
    (line rest : Bytes)
    → All (λ c. c ≢ cr) line
    → find_crlf (line ++ cr ∷ lf ∷ rest) ≡ some (length line)
unfolding find_crlf
find_crlf_here [] rest h = ground arith
find_crlf_here (c ∷ line) rest h = ground (arith, h.0, find_crlf_here line rest h.1)

module _ (line rest : Bytes) (no_cr : All (λ c. c ≢ cr) line) where
  abbrev total : Bytes
  total = line ++ cr ∷ lf ∷ rest

  -- The line end is in the buffer.
  cut_line-Gives :
      (r : Reader) (input : Chunks) (pos : ℕ)
      → find_crlf (view r) ≡ some pos
      → Unread total r input
      → (r' : Reader) × (input' : Chunks) × (cut_line r pos input ≡ gives line r' input')
        × Unread rest r' input'
  cut_line-Gives r input pos f u =
      let again = find_crlf-append (view r) (concat input) f in
      let both : some pos ≡ some (length line) =
        sym again ∙ ap find_crlf u.bytes ∙ find_crlf_here line rest no_cr in
      let at : pos ≡ length line = cc (both) in
      let fits = find_crlf_lt (view r) f in
      let text : take pos (view r) ≡ line =
        sym (take-append_le pos (view r) (concat input) (omega (arith, fits)))
        ∙ ap (take pos) u.bytes
        ∙ ap (λ n. take n total) at
        ∙ take_append_length line (cr ∷ lf ∷ rest) in
      let left : drop (pos + 2) total ≡ rest =
        ap (λ n. drop (n + 2) total) at
        ∙ sym (drop-drop 2 (length line) total)
        ∙ ap (drop 2) (drop_append_length line (cr ∷ lf ∷ rest)) in
      (
        advance r (pos + 2),
        input,
        ap (λ l. gives l (advance r (pos + 2)) input) text,
        advance-Unread (pos + 2) r input u (omega (arith, fits, length-drop r.off r.buf)) left,
      )

  pub read_line_crlf-Gives :
      (r : Reader) (input : Chunks) → Unread total r input → Gives read_line_crlf r input line rest
  unfolding read_line_crlf
  read_line_crlf-Gives r [] u = elim (Option-cases (find_crlf (view r))) [
    | inl n ↦
        let e =
          ap find_crlf (sym (append-nil (view r)) ∙ u.bytes) ∙ find_crlf_here line rest no_cr in
        absurd (cc (n, e))
    | inr (pos, f) ↦ rw (read_line_crlf, f) (cut_line-Gives r [] pos f u)
  ]
  read_line_crlf-Gives r (c ∷ cs) u = elim (Option-cases (find_crlf (view r))) [
    | inl n ↦
        rw (read_line_crlf, n, no_length c u.some_bytes.0)
          (read_line_crlf-Gives (receive r c) cs (receive-Unread r c cs u))
    | inr (pos, f) ↦ rw (read_line_crlf, f) (cut_line-Gives r (c ∷ cs) pos f u)
  ]

byte_at_end : (s : Bytes) (i : ℕ) (t : Bytes) → byte_at (s ++ t) (length s + i) ≡ byte_at t i
byte_at_end [] i t = ap (byte_at t) (omega arith)
byte_at_end (c ∷ s) i t =
    let e : length (c ∷ s) + i ≡ suc (length s + i) = omega arith in rw e (byte_at_end s i t)

module _ (to_sstring : ℕ → Bytes) (decimal : IsDecimal to_sstring) where
  whole-to_sstring : (n : ℕ) → n < int64_min → whole (from_chars_i64 (to_sstring n)) ≡ some n
  whole-to_sstring n small =
      let exact = decimal.exact n in
      let e =
        from_chars_i64_digits (to_sstring n) (decimal.some_digit n) (decimal.digits n)
          (omega (arith, exact, small)) in
      ap whole e ∙ ap some exact

  module _ (n : ℕ) (small : n < int64_min) (rest : Bytes) (r : Reader) (input : Chunks)
      (u : Unread (to_sstring n ++ cr ∷ lf ∷ rest) r input) where
    number_line : Gives read_line_crlf r input (to_sstring n) rest
    number_line =
        read_line_crlf-Gives (to_sstring n) rest (digits-no-cr (to_sstring n) (decimal.digits n)) r
          input u

    pub read_int_line-Gives : Gives read_int_line r input n rest
    unfolding read_int_line
    read_int_line-Gives = Gives->>= read_line_crlf int_of_line r input number_line (λ r' input' u'.
        (
          r',
          input',
          rw (no_length (to_sstring n) (decimal.some_digit n), whole-to_sstring n small) refl,
          u',
        ))

  read_payload-Gives :
      (a rest : Bytes) (r : Reader) (input : Chunks)
      → Unread (a ++ cr ∷ lf ∷ rest) r input
      → Gives (read_payload (length a)) r input a rest
  unfolding read_payload
  read_payload-Gives a rest r input u =
      let total = a ++ cr ∷ lf ∷ rest in
      let (r', input') = ensure (length a + 2) r input in
      let (u', room) =
        ensure-Unread (length a + 2) r input u (omega (arith, length-append a (cr ∷ lf ∷ rest))) in
      let fits : length a + 2 ≤ length (view r') = omega (arith, room, length-drop r'.off r'.buf) in
      let enough : ltb (size r') (length a + 2) ≡ false = ground (arith, room) in
      let at : (i : ℕ) → i < length a + 2 → byte_at (view r') i ≡ byte_at total i = λ i lt.
        sym (byte_at-append (view r') (concat input') i (omega (arith, lt, fits)))
        ∙ ap (λ s. byte_at s i) u'.bytes in
      let first : byte_at (view r') (length a) ≡ cr =
        at (length a) (omega arith)
        ∙ ap (byte_at total) (omega arith)
        ∙ byte_at_end a 0 (cr ∷ lf ∷ rest) in
      let second : byte_at (view r') (length a + 1) ≡ lf =
        at (length a + 1) (omega arith) ∙ byte_at_end a 1 (cr ∷ lf ∷ rest) in
      let text : take (length a) (view r') ≡ a =
        sym (take-append_le (length a) (view r') (concat input') (omega (arith, fits)))
        ∙ ap (take (length a)) u'.bytes
        ∙ take_append_length a (cr ∷ lf ∷ rest) in
      let left : drop (length a + 2) total ≡ rest =
        sym (drop-drop 2 (length a) total) ∙ ap (drop 2) (drop_append_length a (cr ∷ lf ∷ rest)) in
      (
        advance r' (length a + 2),
        input',
        rw (read_payload, enough, first, second, text) refl,
        advance-Unread (length a + 2) r' input' u' room left,
      )

  pub read_bulk-Gives :
      (a rest : Bytes) (r : Reader) (input : Chunks)
      → length a ≤ max_bulk
      → Unread (to_sstring (length a) ++ cr ∷ lf ∷ (a ++ cr ∷ lf ∷ rest)) r input
      → Gives read_bulk r input a rest
  unfolding read_bulk bulk_of_len
  read_bulk-Gives a rest r input small u =
      let n = length a in
      let few : n < int64_min = omega (arith, small) in
      let ne = no_length (to_sstring n) (decimal.some_digit n) in
      let not_null : (n == word - 1) ≡ false = ground (arith, small) in
      let not_negative : leb int64_min n ≡ false = ground (arith, small) in
      let not_large : ltb max_bulk n ≡ false = ground (arith, small) in
      Gives->>= read_line_crlf bulk_of_line r input
        (number_line n few (a ++ cr ∷ lf ∷ rest) r input u)
        (λ r' input' u'.
          rw (ne, whole-to_sstring n few, bulk_of_len, not_null, not_negative, not_large)
            (read_payload-Gives a rest r' input' u'))
