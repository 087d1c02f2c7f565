-- ===== src/Resp/Frame/Items.antt =====
-- src/resp/resp_parser.cc on the numbers and the bulk strings that src/resp/resp_writer.cc writes.
use shunya_kv.Prelude.{
  ℕ, ◌+◌, ◌-◌, ◌≤◌, ◌<◌, ◌≡◌, ◌≢◌, refl, ap, subst, false, some, List, [], ◌∷◌, ◌++◌, arith, length,
  take, drop, length-drop, take_append_length, All, leb,
}
use shunya_kv.Prelude.Bytes.{Bytes, byte_at, find_byte, find_byte_here, cr, lf}
use shunya_kv.Resp.Chars.{digits-no-cr, from_chars_i64_digits}
use shunya_kv.Resp.Writer.{IsDigit, value, IsDecimal}
use shunya_kv.Resp.Writer.Frames.{item_then, items_then}
use shunya_kv.Resp.Stream.{ok, int64_min, max_bulk}
use shunya_kv.Resp.Stream.Numbers.{drop_after, lt_of_drop, byte_at-drop}
use shunya_kv.Resp.Stream.Items.{data_pos, item-drops}
use shunya_kv.Resp.Frame.{
  parse_int_crlf, ends_at, frame_item, frame_items, parsed, command_item, command_items,
}

pub parse_int_crlf-value :
    (s : Bytes) (pos : ℕ) (ds rest : Bytes)
    → ds ≢ []
    → All IsDigit ds
    → value 0 ds < int64_min
    → drop pos s ≡ ds ++ cr ∷ lf ∷ rest
    → parse_int_crlf s pos ≡ ok (value 0 ds) (pos + length ds + 2)
unfolding parse_int_crlf
parse_int_crlf-value s pos ds rest ne d fits e =
    let found : find_byte cr (drop pos s) ≡ some (length ds) =
      rw e (find_byte_here cr ds (lf ∷ rest) (digits-no-cr ds d)) in
    let text : take (length ds) (drop pos s) ≡ ds = rw e (take_append_length ds (cr ∷ lf ∷ rest)) in
    let e' : drop (pos + length ds + 1) s ≡ lf ∷ rest =
      drop_after s (pos + length ds) (cr ∷ []) (lf ∷ rest)
        (drop_after s pos ds (cr ∷ lf ∷ rest) e) in
    let room : leb (length s) (pos + length ds + 1) ≡ false =
      ground (arith, lt_of_drop s (pos + length ds + 1) _ _ e') in
    let newline = byte_at-drop s (pos + length ds + 1) _ _ e' in
    rw (parse_int_crlf, found, room, newline, text, from_chars_i64_digits ds ne d fits) refl

module _ (to_sstring : ℕ → Bytes) (decimal : IsDecimal to_sstring) (s : Bytes) where
  pub parse_int_crlf-to_sstring :
      (n pos : ℕ) (rest : Bytes)
      → n < int64_min
      → drop pos s ≡ to_sstring n ++ cr ∷ lf ∷ rest
      → parse_int_crlf s pos ≡ ok n (pos + length (to_sstring n) + 2)
  parse_int_crlf-to_sstring n pos rest small e =
      let exact = decimal.exact n in
      let fits : value 0 (to_sstring n) < int64_min = omega (arith, exact, small) in
      let r =
        parse_int_crlf-value s pos (to_sstring n) rest (decimal.some_digit n) (decimal.digits n)
          fits e in
      subst (λ v. parse_int_crlf s pos ≡ ok v (pos + length (to_sstring n) + 2)) exact r

  module _ (pos : ℕ) (a tail : Bytes) (e : drop pos s ≡ item_then to_sstring a tail) where
    -- Where the item ends, and that there is room for it.
    abbrev item_end : ℕ
    item_end = data_pos to_sstring pos a + length a + 2

    item-room : item_end ≤ length s
    item-room =
        let d = item-drops to_sstring decimal s pos a tail e in
        omega (arith, lt_of_drop s (data_pos to_sstring pos a + length a + 1) _ _ d.3)

    item-dollar : byte_at s pos ≡ b'$'
    unfolding item_then
    item-dollar = byte_at-drop s pos _ _ e

    module _ (small : length a < int64_min) where
      item-length : parse_int_crlf s (pos + 1) ≡ ok (length a) (data_pos to_sstring pos a)
      item-length =
          let d = item-drops to_sstring decimal s pos a tail e in
          parse_int_crlf-to_sstring (length a) (pos + 1) _ small d.0

      frame_item-item_then : frame_item s (pos + 1) ≡ ends_at item_end
      unfolding frame_item
      frame_item-item_then =
          let d = item-drops to_sstring decimal s pos a tail e in
          let at = data_pos to_sstring pos a + length a in
          ground (
            arith,
            item-length,
            item-room,
            small,
            byte_at-drop s at _ _ d.2,
            byte_at-drop s (at + 1) _ _ d.3,
          )

      command_item-item_then : length a ≤ max_bulk → command_item s pos ≡ parsed (a, item_end)
      unfolding command_item
      command_item-item_then fits =
          let d = item-drops to_sstring decimal s pos a tail e in
          let at = data_pos to_sstring pos a + length a in
          let arg : take (length a) (drop (data_pos to_sstring pos a) s) ≡ a =
            rw d.1 (take_append_length a (cr ∷ lf ∷ tail)) in
          ground (
            arith,
            item-length,
            item-dollar,
            item-room,
            small,
            fits,
            arg,
            byte_at-drop s at _ _ d.2,
            byte_at-drop s (at + 1) _ _ d.3,
          )

  pub frame_items-items_then :
      (args : List Bytes) (pos : ℕ) (rest : Bytes)
      → pos ≤ length s
      → length s < int64_min
      → drop pos s ≡ items_then to_sstring args rest
      → frame_items s (length args) pos ≡ ends_at (length s - length rest)
  unfolding frame_items items_then
  frame_items-items_then [] pos rest le small e =
      ap ends_at (omega (arith, ap length e, length-drop pos s))
  frame_items-items_then (a ∷ args) pos rest le small e =
      let tail = items_then to_sstring args rest in
      let room = item-room pos a tail e in
      let fits : length a < int64_min = omega (arith, room, small) in
      let d = item-drops to_sstring decimal s pos a tail e in
      let inside : leb (length s) pos ≡ false = ground (arith, room) in
      let again = frame_items-items_then args (item_end pos a tail e) rest room small d.4 in
      let dollar = item-dollar pos a tail e in
      let item = frame_item-item_then pos a tail e fits in
      rw (frame_items, inside, dollar, item) again

  pub command_items-items_then :
      (args : List Bytes) (pos : ℕ) (rest : Bytes)
      → All (λ a. length a ≤ max_bulk) args
      → drop pos s ≡ items_then to_sstring args rest
      → command_items s (length args) pos ≡ parsed args
  unfolding command_items items_then
  command_items-items_then [] pos rest small e = refl
  command_items-items_then (a ∷ args) pos rest (fits, small) e =
      let tail = items_then to_sstring args rest in
      let d = item-drops to_sstring decimal s pos a tail e in
      let item = command_item-item_then pos a tail e (omega (arith, fits)) fits in
      let again = command_items-items_then args (item_end pos a tail e) rest small d.4 in
      rw (command_items, item, again) refl
