-- ===== src/Resp/Frame/Written.antt =====
-- src/resp/resp_parser.cc on the arrays of bulk strings that src/resp/resp_writer.cc writes.
use shunya_kv.Prelude.{
  ℕ, zero, suc, ◌+◌, ◌-◌, ◌≤◌, ◌<◌, ◌≡◌, ◌⊎◌, inl, inr, refl, sym, ap, subst, ◌∙◌, true, false,
  List, [], ◌∷◌, ◌++◌, arith, length, take, drop, length-drop, length-append, length-take,
  take-append-drop, append-nil, All, leb, ◌==◌, ◌||◌,
}
use shunya_kv.Prelude.Bytes.{Bytes, byte_at, cr, lf}
use shunya_kv.Resp.Writer.{IsDecimal, write_array_bulk}
use shunya_kv.Resp.Writer.Frames.{item_then, items_then, write_array_bulk-items_then}
use shunya_kv.Resp.Stream.{IntResult, need_more, invalid, ok, int64_min, max_args, max_bulk}
use shunya_kv.Resp.Stream.Numbers.{drop_after, byte_at-drop}
use shunya_kv.Resp.Frame.{
  parse_int_crlf, Framed, waits, refused, ends_at, frame_item, frame_items, parse_frame_length,
  parsed, parse_command_from_frame,
}
use shunya_kv.Resp.Frame.Stable.{parse_int_crlf-ends, parse_frame_length-append}
use shunya_kv.Resp.Frame.Items.{
  parse_int_crlf-to_sstring, frame_items-items_then, command_items-items_then,
}

-- Each bulk string takes up some bytes.
length-items_then :
    (to_sstring : ℕ → Bytes) (args : List Bytes) (rest : Bytes)
    → length args + length rest ≤ length (items_then to_sstring args rest)
unfolding items_then item_then
length-items_then to_sstring [] rest = omega arith
length-items_then to_sstring (a ∷ args) rest =
    let tail = items_then to_sstring args rest in
    omega (
      arith,
      length-items_then to_sstring args rest,
      length-append (to_sstring (length a)) (cr ∷ lf ∷ (a ++ cr ∷ lf ∷ tail)),
      length-append a (cr ∷ lf ∷ tail),
    )

frame_item-ends : (s : Bytes) (pos : ℕ) {q : ℕ} → frame_item s pos ≡ ends_at q → q ≤ length s
unfolding frame_item
frame_item-ends s pos {q} e = hook (parse_int_crlf s pos) refl
  where
    hook : (r : IntResult) → parse_int_crlf s pos ≡ r → q ≤ length s
    hook need_more f = ground (arith, e, f)
    hook invalid f = ground (arith, e, f)
    hook (ok v p) f = ground (arith, e, f)

frame_items-ends :
    (s : Bytes) (left pos : ℕ) {q : ℕ}
    → pos ≤ length s
    → frame_items s left pos ≡ ends_at q
    → q ≤ length s
unfolding frame_items
frame_items-ends s zero pos {q} le e = ground (arith, le)
frame_items-ends s (suc left) pos {q} le e =
    hook (λ p. frame_items-ends s left p) (frame_item s (pos + 1)) refl
  where
    hook :
        ((p : ℕ) → p ≤ length s → frame_items s left p ≡ ends_at q → q ≤ length s)
        → (r : Framed) → frame_item s (pos + 1) ≡ r
        → q ≤ length s
    hook go_on waits f = ground (arith, e, f)
    hook go_on refused f = ground (arith, e, f)
    hook go_on (ends_at p) f = go_on p (frame_item-ends s (pos + 1) f) (ground (arith, e, f))

parse_frame_length-ends : (s : Bytes) {q : ℕ} → parse_frame_length s ≡ ends_at q → q ≤ length s
unfolding parse_frame_length
parse_frame_length-ends s {q} e = hook (parse_int_crlf s 1) refl
  where
    hook : (r : IntResult) → parse_int_crlf s 1 ≡ r → q ≤ length s
    hook need_more f = ground (arith, e, f)
    hook invalid f = ground (arith, e, f)
    hook (ok v p) f = frame_items-ends s v p (parse_int_crlf-ends s [] 1 f) (ground (arith, e, f))

module _ (to_sstring : ℕ → Bytes) (decimal : IsDecimal to_sstring) (args : List Bytes) where
  abbrev frame : Bytes
  frame = write_array_bulk to_sstring [] args

  module _ (rest : Bytes) (more : 0 < length args) where
    -- The number of arguments is read off the head of the frame.
    frame-head :
        length (frame ++ rest) < int64_min
        → let head = 1 + length (to_sstring (length args)) + 2 in
          (parse_int_crlf (frame ++ rest) 1 ≡ ok (length args) head)
          × (drop head (frame ++ rest) ≡ items_then to_sstring args rest)
          × (byte_at (frame ++ rest) 0 ≡ b'*')
          × (head ≤ length (frame ++ rest))
    frame-head small =
        let dec = to_sstring (length args) in
        let items = items_then to_sstring args rest in
        let s = frame ++ rest in
        let e : drop 0 s ≡ b'*' ∷ (dec ++ cr ∷ lf ∷ items) =
          write_array_bulk-items_then to_sstring args rest in
        let e1 = drop_after s 0 (b'*' ∷ []) (dec ++ cr ∷ lf ∷ items) e in
        let e2 = drop_after s 1 dec (cr ∷ lf ∷ items) e1 in
        let e3 = drop_after s (1 + length dec) (cr ∷ lf ∷ []) items e2 in
        let len : length s ≡ 1 + length dec + 2 + length items =
          omega (arith, ap length e, length-append dec (cr ∷ lf ∷ items)) in
        let few : length args < int64_min =
          omega (arith, len, small, length-items_then to_sstring args rest) in
        (
          parse_int_crlf-to_sstring to_sstring decimal s (length args) 1 items few e1,
          e3,
          byte_at-drop s 0 _ _ e,
          omega (arith, len),
        )

    parse_frame_length-frame :
        length (frame ++ rest) < int64_min
        → parse_frame_length (frame ++ rest) ≡ ends_at (length frame)
    unfolding parse_frame_length
    parse_frame_length-frame small =
        let h = frame-head small in
        let s = frame ++ rest in
        let len : length s ≡ length frame + length rest = length-append frame rest in
        let few : length args < int64_min = omega (
          arith,
          h.3,
          small,
          ap length h.1,
          length-drop (1 + length (to_sstring (length args)) + 2) s,
          length-items_then to_sstring args rest,
        ) in
        let items = frame_items-items_then to_sstring decimal s args _ rest h.3 small h.1 in
        let end : length s - length rest ≡ length frame = omega (arith, len) in
        let full : (length s == 0) ≡ false = ground (arith, h.3) in
        let good : (length args == 0 || leb int64_min (length args)) ≡ false =
          ground (arith, more, few) in
        let star : (byte_at s 0 == b'*') ≡ true = ground (arith, h.2) in
        rw (parse_frame_length, full, star, h.0, good) (items ∙ ap ends_at end)

  -- In front of any bytes `parse_frame_length` finds the end of the array of bulk strings that
  -- `write_array_bulk` writes for one argument or more; and of any proper part of that array, from its
  -- start, it asks for more bytes. The buffer is to be shorter than 2^63 bytes.
  pub parse_frame_length-write_array_bulk :
      (rest : Bytes)
      → 0 < length args
      → length (frame ++ rest) < int64_min
      → (parse_frame_length (frame ++ rest) ≡ ends_at (length frame))
        × ((n : ℕ) → n < length frame → parse_frame_length (take n frame) ≡ waits)
  parse_frame_length-write_array_bulk rest more small = (
    parse_frame_length-frame rest more small,
    λ n lt. part n lt (parse_frame_length-append (take n frame) (drop n frame)),
  )
    where
      alone : parse_frame_length frame ≡ ends_at (length frame)
      alone =
          subst (λ s. parse_frame_length s ≡ ends_at (length frame)) (append-nil frame)
            (parse_frame_length-frame [] more
              (omega (arith, small, length-append frame rest, ap length (append-nil frame))))

      part :
          (n : ℕ)
          → n < length frame
          → (parse_frame_length (take n frame) ≡ waits)
            ⊎ (parse_frame_length (take n frame ++ drop n frame)
                ≡ parse_frame_length (take n frame))
          → parse_frame_length (take n frame) ≡ waits
      part n lt (inl w) = w
      part n lt (inr same) =
          let whole_frame = ap parse_frame_length (take-append-drop n frame) ∙ alone in
          let short = parse_frame_length-ends (take n frame) (sym same ∙ whole_frame) in
          absurd (omega (arith, short, lt, length-take n frame))

  -- `parse_command_from_frame` reads off such an array the very arguments. There are to be between 1
  -- and 1024 arguments of at most 64 MiB each.
  pub parse_command_from_frame-write_array_bulk :
      (rest : Bytes)
      → 0 < length args
      → length args ≤ max_args
      → All (λ a. length a ≤ max_bulk) args
      → length (frame ++ rest) < int64_min
      → parse_command_from_frame (frame ++ rest) ≡ parsed args
  unfolding parse_command_from_frame
  parse_command_from_frame-write_array_bulk rest more few fit small =
      let h = frame-head rest more small in
      let s = frame ++ rest in
      let items = command_items-items_then to_sstring decimal s args _ rest fit h.1 in
      ground (arith, h.0, h.2, h.3, more, few, items)
