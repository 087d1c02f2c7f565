-- ===== src/Resp/Writer/Frames.antt =====
-- What the writers of src/resp/resp_writer.cc write, as one text.
use shunya_kv.Prelude.{ℕ, ◌≡◌, refl, ◌∙◌, List, [], ◌∷◌, ◌++◌, length, append_assoc}
use shunya_kv.Prelude.Bytes.{Bytes, cr, lf}
use shunya_kv.Resp.Writer.{write_array_bulk, write_bulks, write_bulk, write_crlf}

module _ (to_sstring : ℕ → Bytes) where
  -- The bytes of one bulk string, and of several, before the bytes `tail`.
  unfoldable pub item_then : Bytes → Bytes → Bytes
  item_then a tail = b'$' ∷ (to_sstring (length a) ++ cr ∷ lf ∷ (a ++ cr ∷ lf ∷ tail))

  unfoldable pub items_then : List Bytes → Bytes → Bytes
  items_then [] tail = tail
  items_then (a ∷ as') tail = item_then a (items_then as' tail)

  write_bulk-item_then :
      (out a tail : Bytes) → write_bulk to_sstring out a ++ tail ≡ out ++ item_then a tail
  unfolding write_bulk item_then write_crlf
  write_bulk-item_then out [] tail = simp append_assoc
  write_bulk-item_then out (c ∷ s) tail = simp append_assoc

  write_bulks-items_then :
      (out : Bytes) (args : List Bytes) (tail : Bytes)
      → write_bulks to_sstring out args ++ tail ≡ out ++ items_then args tail
  unfolding write_bulks items_then
  write_bulks-items_then out [] tail = refl
  write_bulks-items_then out (a ∷ args) tail =
      write_bulks-items_then (write_bulk to_sstring out a) args tail
      ∙ write_bulk-item_then out a (items_then args tail)

  pub write_array_bulk-items_then :
      (args : List Bytes) (tail : Bytes)
      → write_array_bulk to_sstring [] args ++ tail
        ≡ b'*' ∷ (to_sstring (length args) ++ cr ∷ lf ∷ items_then args tail)
  unfolding write_array_bulk write_crlf
  write_array_bulk-items_then args tail = write_bulks-items_then _ args tail ∙ simp append_assoc
