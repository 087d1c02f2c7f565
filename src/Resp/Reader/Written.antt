-- ===== src/Resp/Reader/Written.antt =====
-- The reader of src/resp/resp_parser.cc on the arrays that src/resp/resp_writer.cc writes, and at the
-- end of the stream.
use shunya_kv.Prelude.{
  ℕ, ◌≤◌, ◌<◌, ◌≡◌, ◌≢◌, refl, sym, ap, ◌∙◌, ◌⊎◌, inl, inr, append-nil, length-drop, true, false,
  ◌||◌, List, [], ◌∷◌, ◌++◌, arith, length, All, leb, ltb, ◌==◌,
}
use shunya_kv.Prelude.Bytes.{Bytes, cr, lf}
use shunya_kv.Resp.Writer.{IsDecimal, write_array_bulk}
use shunya_kv.Resp.Writer.Frames.{item_then, items_then, write_array_bulk-items_then}
use shunya_kv.Resp.Stream.{int64_min, max_args, max_bulk}
use shunya_kv.Resp.Reader.{
  size, view, ensure, Reader, Chunks, gives, ◌>>=◌, read_byte, read_bulk, read_items, read_int_line,
  items_of_count, command_of_type, read_command,
}
use shunya_kv.Resp.Reader.Moves.{concat, Unread, Gives, Gives->>=, read_byte-Gives}
use shunya_kv.Resp.Reader.Lines.{read_int_line-Gives, read_bulk-Gives}

module _ (to_sstring : ℕ → Bytes) (decimal : IsDecimal to_sstring) where
  read_items-Gives :
      (args : List Bytes) (rest : Bytes) (r : Reader) (input : Chunks)
      → All (λ a. length a ≤ max_bulk) args
      → Unread (items_then to_sstring args rest) r input
      → Gives (read_items (length args)) r input args rest
  unfolding read_items items_then item_then
  read_items-Gives [] rest r input small u = (r, input, refl, u)
  read_items-Gives (a ∷ args) rest r input (fits, small) u =
      let tail = items_then to_sstring args rest in
      Gives->>= read_byte _ r input (read_byte-Gives b'$' _ r input u) (λ r1 i1 u1.
        Gives->>= read_bulk _ r1 i1 (read_bulk-Gives to_sstring decimal a tail r1 i1 fits u1)
          (λ r2 i2 u2.
            Gives->>= (read_items (length args)) _ r2 i2 (read_items-Gives args rest r2 i2 small u2)
              (λ r3 i3 u3. (r3, i3, refl, u3))))

  -- When the unread bytes, in the buffer and in the chunks that are still to come, begin with the array
  -- of bulk strings that `write_array_bulk` writes for `args`, `read_command` returns these very
  -- arguments, and exactly the bytes behind the array stay unread; it does not matter where the chunks
  -- end. There are to be between 1 and 1024 arguments of at most 64 MiB each, and no chunk is empty.
  pub read_command-write_array_bulk :
      (args : List Bytes) (rest : Bytes) (r : Reader) (input : Chunks)
      → 0 < length args
      → length args ≤ max_args
      → All (λ a. length a ≤ max_bulk) args
      → Unread (write_array_bulk to_sstring [] args ++ rest) r input
      → Gives read_command r input args rest
  unfolding read_command
  read_command-write_array_bulk args rest r input more few small u =
      let items = items_then to_sstring args rest in
      let n = length args in
      let u0 : Unread (b'*' ∷ (to_sstring n ++ cr ∷ lf ∷ items)) r input =
        rw (← write_array_bulk-items_then to_sstring args rest) u in
      let good : (n == 0 || leb int64_min n) ≡ false = ground (arith, more, few) in
      let not_many : ltb max_args n ≡ false = ground (arith, few) in
      Gives->>= read_byte command_of_type r input (read_byte-Gives b'*' _ r input u0) (λ r1 i1 u1.
        Gives->>= read_int_line items_of_count r1 i1
          (read_int_line-Gives to_sstring decimal n (omega (arith, few)) items r1 i1 u1)
          (λ r2 i2 u2. rw (good, not_many) (read_items-Gives args rest r2 i2 small u2)))

no_chunks : (s : Bytes) (c : Bytes) (t : Bytes) → c ≢ [] → s ++ (c ++ t) ≢ []
no_chunks [] [] t ne e = ne refl
no_chunks [] (b ∷ c) t ne e = cc (e)
no_chunks (d ∷ s) c t ne e = cc (e)

read_byte_at_end : (r : Reader) (input : Chunks) → Unread [] r input → Gives read_byte r input 0 []
unfolding read_byte ensure
read_byte_at_end r [] u =
    let none_left : (size r == 0) ≡ true =
      ground (arith, ap length (sym (append-nil (view r)) ∙ u.bytes), length-drop r.off r.buf) in
    (r, [], rw (read_byte, ensure, none_left) refl, u)
read_byte_at_end r (c ∷ cs) u = absurd (no_chunks (view r) c (concat cs) u.some_bytes.0 u.bytes)

-- At the end of the stream `read_command` returns no arguments, by which its caller knows that the
-- connection was closed; and it returns the same where a NUL byte comes next, whatever bytes follow it.
pub read_command_closed :
    (rest : Bytes) (r : Reader) (input : Chunks)
    → Unread [] r input ⊎ Unread (0 ∷ rest) r input
    → (r' : Reader) × (input' : Chunks) × (read_command r input ≡ gives [] r' input')
unfolding read_command
read_command_closed rest r input (inl u) =
    let (r', input', e, u') = read_byte_at_end r input u in
    (r', input', rw (read_command, ◌>>=◌, e) refl)
read_command_closed rest r input (inr u) =
    let (r', input', e, u') = read_byte-Gives 0 rest r input u in
    (r', input', rw (read_command, ◌>>=◌, e) refl)
