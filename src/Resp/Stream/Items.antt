-- ===== src/Resp/Stream/Items.antt =====
-- How the parser reads one bulk string.
use shunya_kv.Prelude.{
  ℕ, ◌+◌, ◌%◌, ◌^◌, ◌≤◌, ◌≡◌, ap, List, [], ◌∷◌, ◌++◌, arith, length, drop, length-drop,
  length-append,
}
use shunya_kv.Prelude.Bytes.{Bytes, cr, lf}
use shunya_kv.Resp.Writer.{IsDecimal}
use shunya_kv.Resp.Writer.Frames.{item_then}
use shunya_kv.Resp.Stream.{
  Processor, Slice, need_dollar, need_bulk_len, need_bulk_data, need_bulk_crlf, Outcome, again,
  step, dispatch, step_dollar, step_bulk_len, step_bulk_data, max_bulk,
}
use shunya_kv.Resp.Stream.Numbers.{drop_after, lt_of_drop, byte_at-drop, parse_int_crlf-value}
use shunya_kv.Resp.Stream.Runs.{Runs, goes}

module _ (to_sstring : ℕ → Bytes) where
  -- Where the slices of the arguments lie, for items that begin at `pos`.
  abbrev pub data_pos : ℕ → Bytes → ℕ
  data_pos pos a = pos + 1 + length (to_sstring (length a)) + 2

  unfoldable pub slices_from : ℕ → List Bytes → List Slice
  slices_from pos [] = []
  slices_from pos (a ∷ args) =
      record { off = data_pos pos a % 2 ^ 32; len = length a % 2 ^ 32 }
      ∷ slices_from (data_pos pos a + length a + 2) args

  module _ (decimal : IsDecimal to_sstring) where
    -- The state behind the data of the item that begins at the position of `p`.
    unfoldable pub behind_data : Processor → Bytes → Processor
    behind_data p a = record p {
      pos = data_pos p.pos a + length a;
      bulk_len = length a;
      slices = p.slices ++ record { off = data_pos p.pos a % 2 ^ 32; len = length a % 2 ^ 32 } ∷ [];
      st = need_bulk_crlf;
    }

    -- The state behind the whole item.
    unfoldable pub behind_item : Processor → Bytes → Processor
    behind_item p a = record (behind_data p a) {
      pos = data_pos p.pos a + length a + 2;
      argi = p.argi + 1;
    }

    behind_dollar : Processor → Processor
    behind_dollar p = record p { pos = p.pos + 1; st = need_bulk_len }

    behind_len : Processor → Bytes → Processor
    behind_len p a = record p { pos = data_pos p.pos a; bulk_len = length a; st = need_bulk_data }

    dollar :
        (p : Processor) (buf a tail : Bytes)
        → p.st ≡ need_dollar
        → drop p.pos buf ≡ item_then to_sstring a tail
        → step p buf ≡ again (behind_dollar p)
    unfolding step dispatch step_dollar behind_dollar item_then
    dollar p buf a tail st e =
        ground (arith, st, lt_of_drop buf p.pos _ _ e, byte_at-drop buf p.pos _ _ e)

    bulk_len :
        (p : Processor) (buf a tail : Bytes)
        → length a ≤ max_bulk
        → drop (p.pos + 1) buf ≡ to_sstring (length a) ++ cr ∷ lf ∷ tail
        → step (behind_dollar p) buf ≡ again (behind_len p a)
    unfolding step dispatch step_bulk_len behind_dollar behind_len
    bulk_len p buf a tail small e =
        let n = decimal.exact (length a) in
        ground (
          arith,
          n,
          parse_int_crlf-value buf (p.pos + 1) (to_sstring (length a)) tail
              (decimal.some_digit (length a)) (decimal.digits (length a)) (omega (arith, n)) e,
        )

    bulk_data :
        (p : Processor) (buf a tail : Bytes)
        → length a ≤ max_bulk
        → drop (data_pos p.pos a) buf ≡ a ++ cr ∷ tail
        → step (behind_len p a) buf ≡ again (behind_data p a)
    unfolding step dispatch step_bulk_data behind_len behind_data
    bulk_data p buf a tail small e =
        ground (arith, ap length e, length-drop (data_pos p.pos a) buf, length-append a (cr ∷ tail))

    pub item-drops :
        (buf : Bytes) (pos : ℕ) (a tail : Bytes)
        → drop pos buf ≡ item_then to_sstring a tail
        → (drop (pos + 1) buf ≡ to_sstring (length a) ++ cr ∷ lf ∷ (a ++ cr ∷ lf ∷ tail))
          × (drop (data_pos pos a) buf ≡ a ++ cr ∷ lf ∷ tail)
          × (drop (data_pos pos a + length a) buf ≡ cr ∷ lf ∷ tail)
          × (drop (data_pos pos a + length a + 1) buf ≡ lf ∷ tail)
          × (drop (data_pos pos a + length a + 2) buf ≡ tail)
    unfolding item_then
    item-drops buf pos a tail e =
        let dec = to_sstring (length a) in
        let e1 = drop_after buf pos (b'$' ∷ []) (dec ++ cr ∷ lf ∷ (a ++ cr ∷ lf ∷ tail)) e in
        let e2 = drop_after buf (pos + 1) dec (cr ∷ lf ∷ (a ++ cr ∷ lf ∷ tail)) e1 in
        let e3 = drop_after buf (pos + 1 + length dec) (cr ∷ lf ∷ []) (a ++ cr ∷ lf ∷ tail) e2 in
        let e4 = drop_after buf (data_pos pos a) a (cr ∷ lf ∷ tail) e3 in
        (
          e1,
          e3,
          e4,
          drop_after buf (data_pos pos a + length a) (cr ∷ []) (lf ∷ tail) e4,
          drop_after buf (data_pos pos a + length a) (cr ∷ lf ∷ []) tail e4,
        )

    -- The four rounds that read an item up to the end of its data.
    pub item-Runs :
        (p : Processor) (buf a tail : Bytes) {o : Outcome}
        → p.st ≡ need_dollar
        → length a ≤ max_bulk
        → drop p.pos buf ≡ item_then to_sstring a tail
        → Runs buf (behind_data p a) o
        → Runs buf p o
    item-Runs p buf a tail st small e r =
        let (e1, e2, e3, e4, e5) = item-drops buf p.pos a tail e in
        goes (dollar p buf a tail st e) (
          goes (bulk_len p buf a (a ++ cr ∷ lf ∷ tail) small e1)
            (goes (bulk_data p buf a (lf ∷ tail) small e2) r))
