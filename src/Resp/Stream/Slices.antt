-- ===== src/Resp/Stream/Slices.antt =====
-- The slices that the stream parser notes cut the written arguments out of the frame.
use shunya_kv.Prelude.{
  ℕ, ◌+◌, ◌-◌, ◌%◌, ◌^◌, ◌≤◌, ◌<◌, ◌≡◌, refl, some, List, [], ◌∷◌, ◌++◌, arith, length, drop,
  take_append_length,
}
use shunya_kv.Prelude.Bytes.{Bytes, cr, lf}
use shunya_kv.Resp.Writer.{IsDecimal}
use shunya_kv.Resp.Writer.Frames.{items_then}
use shunya_kv.Resp.Stream.{cut_slices, substr, word}
use shunya_kv.Resp.Stream.Numbers.{lt_of_drop}
use shunya_kv.Resp.Stream.Items.{data_pos, slices_from, item-drops}

module _ (to_sstring : ℕ → Bytes) (decimal : IsDecimal to_sstring) where
  -- The slices cut the very arguments out of the frame.
  pub cut_slices-slices_from :
      (frame : Bytes) (start pos : ℕ) (args : List Bytes)
      → start ≤ pos
      → start + length frame < 2 ^ 32
      → drop (pos - start) frame ≡ items_then to_sstring args []
      → cut_slices frame start (slices_from to_sstring pos args) ≡ some args
  unfolding cut_slices slices_from items_then substr
  cut_slices-slices_from frame start pos [] le fits e = refl
  cut_slices-slices_from frame start pos (a ∷ args) le fits e =
      let tail = items_then to_sstring args [] in
      let d = item-drops to_sstring decimal frame (pos - start) a tail e in
      let at = data_pos to_sstring pos a in
      let shift : data_pos to_sstring (pos - start) a ≡ at - start = omega arith in
      let room = lt_of_drop frame (data_pos to_sstring (pos - start) a + length a + 1) _ _ d.3 in
      let next : data_pos to_sstring (pos - start) a + length a + 2 ≡ (at + length a + 2) - start =
        omega arith in
      let off : (at % 2 ^ 32 + word - start) % word ≡ at - start = omega (arith, room) in
      let len : length a % 2 ^ 32 ≡ length a = omega (arith, room) in
      let here : drop (at - start) frame ≡ a ++ cr ∷ lf ∷ tail = rw (← shift) d.1 in
      let rest =
        cut_slices-slices_from frame start (at + length a + 2) args (omega arith) fits
          (rw (← next) d.4) in
      ground (arith, off, len, here, rest, room, take_append_length a (cr ∷ lf ∷ tail))
