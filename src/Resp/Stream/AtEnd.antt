-- ===== src/Resp/Stream/AtEnd.antt =====
-- The stream parser goes through the written items of a request up to the last CRLF.
use shunya_kv.Prelude.{
  ℕ, ◌+◌, ◌≤◌, ◌<◌, ◌≡◌, refl, ◌∙◌, List, [], ◌∷◌, ◌++◌, arith, length, All, drop, append_assoc,
}
use shunya_kv.Prelude.Bytes.{Bytes}
use shunya_kv.Resp.Writer.{IsDecimal}
use shunya_kv.Resp.Writer.Frames.{item_then, items_then}
use shunya_kv.Resp.Stream.{
  Processor, need_dollar, Outcome, again, stop, step, dispatch, step_bulk_crlf, finish, max_bulk,
}
use shunya_kv.Resp.Stream.Numbers.{lt_of_drop, byte_at-drop}
use shunya_kv.Resp.Stream.Items.{
  data_pos, slices_from, behind_data, behind_item, item-drops, item-Runs,
}
use shunya_kv.Resp.Stream.Runs.{Runs, ends, goes}

module _ (to_sstring : ℕ → Bytes) (decimal : IsDecimal to_sstring) where
  -- Past its last item the parser is about to cut out the request.
  pub record AtEnd (p : Processor) (buf : Bytes) (args : List Bytes) (rest : Bytes) : Type 0 where
    pub last : Processor
    pub finishes : (o : Outcome) → finish last buf ≡ stop o → Runs buf p o
    pub same_start : last.cmd_start ≡ p.cmd_start
    pub all_slices : last.slices ≡ p.slices ++ slices_from to_sstring p.pos args
    pub left : drop last.pos buf ≡ rest
    pub inside : last.pos ≤ length buf

  last_crlf :
      (p : Processor) (buf a tail : Bytes)
      → p.argi + 1 ≡ p.argc
      → drop p.pos buf ≡ item_then to_sstring a tail
      → step (behind_data to_sstring decimal p a) buf
        ≡ finish (behind_item to_sstring decimal p a) buf
  unfolding step dispatch step_bulk_crlf behind_data behind_item
  last_crlf p buf a tail count e =
      let (e1, e2, e3, e4, e5) = item-drops to_sstring decimal buf p.pos a tail e in
      let at = data_pos to_sstring p.pos a + length a in
      ground (
        arith,
        count,
        lt_of_drop buf (at + 1) _ _ e4,
        byte_at-drop buf at _ _ e3,
        byte_at-drop buf (at + 1) _ _ e4,
      )

  next_crlf :
      (p : Processor) (buf a tail : Bytes)
      → p.argi + 1 < p.argc
      → drop p.pos buf ≡ item_then to_sstring a tail
      → step (behind_data to_sstring decimal p a) buf
        ≡ again (record (behind_item to_sstring decimal p a) { st = need_dollar })
  unfolding step dispatch step_bulk_crlf behind_data behind_item
  next_crlf p buf a tail count e =
      let (e1, e2, e3, e4, e5) = item-drops to_sstring decimal buf p.pos a tail e in
      let at = data_pos to_sstring p.pos a + length a in
      ground (
        arith,
        count,
        lt_of_drop buf (at + 1) _ _ e4,
        byte_at-drop buf at _ _ e3,
        byte_at-drop buf (at + 1) _ _ e4,
      )

  pub items-AtEnd :
      (args : List Bytes) (a : Bytes) (p : Processor) (buf rest : Bytes)
      → p.st ≡ need_dollar
      → p.argi + 1 + length args ≡ p.argc
      → All (λ b. length b ≤ max_bulk) (a ∷ args)
      → drop p.pos buf ≡ items_then to_sstring (a ∷ args) rest
      → AtEnd p buf (a ∷ args) rest
  unfolding items_then slices_from behind_item behind_data
  items-AtEnd [] a p buf rest st count small e =
      let d = item-drops to_sstring decimal buf p.pos a rest e in
      record {
        last = behind_item to_sstring decimal p a;
        finishes = λ o f.
            item-Runs to_sstring decimal p buf a rest st small.0 e
              (ends (last_crlf p buf a rest (omega arith) e ∙ f));
        same_start = refl;
        all_slices = refl;
        left = d.4;
        inside = omega (arith, lt_of_drop buf (data_pos to_sstring p.pos a + length a + 1) _ _ d.3);
      }
  items-AtEnd (b ∷ args) a p buf rest st count small e =
      let tail = items_then to_sstring (b ∷ args) rest in
      let d = item-drops to_sstring decimal buf p.pos a tail e in
      let p' = record (behind_item to_sstring decimal p a) { st = need_dollar } in
      let r = items-AtEnd args b p' buf rest refl (omega arith) small.1 d.4 in
      record {
        last = r.last;
        finishes = λ o f.
            item-Runs to_sstring decimal p buf a tail st small.0 e
              (goes (next_crlf p buf a tail (omega arith) e) (r.finishes o f));
        same_start = r.same_start;
        all_slices = r.all_slices ∙ append_assoc p.slices _ _;
        left = r.left;
        inside = r.inside;
      }
