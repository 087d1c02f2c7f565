-- ===== src/Resp/Reader/Moves.antt =====
-- What the reader of src/resp/resp_parser.cc has still to read, and that its moves between the stream
-- and its buffer lose nothing.
use shunya_kv.Prelude.{
  ℕ, ◌+◌, ◌≤◌, ◌<◌, ◌≡◌, ◌≢◌, inl, inr, refl, sym, ap, ◌∙◌, false, [], ◌∷◌, ◌++◌, append-nil,
  append_assoc, arith, length, drop, length-drop, length-append, drop-append_le, drop-drop, All,
  ltb, ◌==◌, Bool-cases,
}
use shunya_kv.Prelude.Bytes.{Bytes}
use shunya_kv.Resp.Chars.{no_length}
use shunya_kv.Resp.Stream.Parts.{drop-compact_if_needed, compact_if_needed_le}
use shunya_kv.Resp.Stream.Numbers.{byte_at-drop}
use shunya_kv.Resp.Reader.{
  Reader, Chunks, gives, M, ◌>>=◌, size, view, compact, receive, advance, ensure, read_byte,
}

abbrev pub concat : Chunks → Bytes
concat [] = []
concat (c ∷ cs) = c ++ concat cs

-- The reader stands within its buffer, the chunks to come are not empty, and these bytes are unread.
pub record Unread (total : Bytes) (r : Reader) (input : Chunks) : Type 0 where
  pub inside : r.off ≤ length r.buf
  pub some_bytes : All (λ c. c ≢ []) input
  pub bytes : view r ++ concat input ≡ total

-- From `r` and `input` on, `m` gives `a` and leaves `rest` unread.
abbrev pub Gives : {A : Type 0} → M A → Reader → Chunks → A → Bytes → Type 0
Gives {A} m r input a rest =
    (r' : Reader) × (input' : Chunks) × (m r input ≡ gives a r' input') × Unread rest r' input'

pub Gives->>= :
    {A B : Type 0} (m : M A) (f : A → M B) (r : Reader) (input : Chunks) {a : A} {b : B}
    {mid rest : Bytes}
    → Gives m r input a mid
    → ((r' : Reader) (input' : Chunks) → Unread mid r' input' → Gives (f a) r' input' b rest)
    → Gives (m >>= f) r input b rest
Gives->>= m f r input {a} (r1, input1, e1, u1) k =
    let (r2, input2, e2, u2) = k r1 input1 u1 in (r2, input2, rw (◌>>=◌, e1) e2, u2)

compact_lem :
    (r : Reader)
    → r.off ≤ length r.buf
    → ((compact r).off ≤ length (compact r).buf) × (view (compact r) ≡ view r)
unfolding compact
compact_lem r h = (compact_if_needed_le r.buf r.off h, drop-compact_if_needed r.buf r.off)

pub receive-Unread :
    {total : Bytes} (r : Reader) (c : Bytes) (cs : Chunks)
    → Unread total r (c ∷ cs)
    → Unread total (receive r c) cs
unfolding receive
receive-Unread r c cs u =
    let (inside, same) = compact_lem r u.inside in
    record {
      inside = omega (arith, inside, length-append (compact r).buf c);
      some_bytes = u.some_bytes.1;
      bytes =
          rw (drop-append_le (compact r).off (compact r).buf c inside, same)
            (append_assoc (view r) c (concat cs) ∙ u.bytes);
    }

-- Some of the bytes in the buffer are taken.
pub advance-Unread :
    {total rest : Bytes} (n : ℕ) (r : Reader) (input : Chunks)
    → Unread total r input
    → n ≤ size r
    → drop n total ≡ rest
    → Unread rest (advance r n) input
unfolding advance
advance-Unread n r input u room e =
    let in_view : n ≤ length (view r) = omega (arith, room, length-drop r.off r.buf) in
    let moved = record r { off = r.off + n } in
    let (inside, same) = compact_lem moved (omega (arith, room, u.inside)) in
    record {
      inside = inside;
      some_bytes = u.some_bytes;
      bytes =
          ap (λ s. s ++ concat input) (same ∙ sym (drop-drop n r.off r.buf))
          ∙ sym (drop-append_le n (view r) (concat input) in_view)
          ∙ ap (drop n) u.bytes
          ∙ e;
    }

-- Where there are enough bytes to come, `ensure` gets them into the buffer.
pub ensure-Unread :
    {total : Bytes} (n : ℕ) (r : Reader) (input : Chunks)
    → Unread total r input
    → n ≤ length total
    → Unread total (ensure n r input).0 (ensure n r input).1 × (n ≤ size (ensure n r input).0)
unfolding ensure
ensure-Unread n r [] u room = (
  u,
  omega (arith, room, ap length (sym (append-nil (view r)) ∙ u.bytes), length-drop r.off r.buf),
)
ensure-Unread n r (c ∷ cs) u room = elim (Bool-cases (ltb (size r) n)) [
  | inr enough ↦ rw (ensure, enough) (u, ground (arith, enough))
  | inl short ↦
      let full = no_length c u.some_bytes.0 in
      rw (ensure, short, full) (ensure-Unread n (receive r c) cs (receive-Unread r c cs u) room)
]

front :
    (s t : Bytes) (c : ℕ) (rest : Bytes)
    → s ++ t ≡ c ∷ rest
    → 0 < length s
    → (s' : Bytes) × (s ≡ c ∷ s')
front [] t c rest e h = absurd (omega arith)
front (b ∷ s) t c rest e h = (s, cc (e))

pub read_byte-Gives :
    (c : ℕ) (rest : Bytes) (r : Reader) (input : Chunks)
    → Unread (c ∷ rest) r input
    → Gives read_byte r input c rest
unfolding read_byte
read_byte-Gives c rest r input u =
    let (r', input') = ensure 1 r input in
    let (u', room) = ensure-Unread 1 r input u (omega arith) in
    let some_room : (size r' == 0) ≡ false = ground (arith, room) in
    let (behind, e) =
      front (view r') (concat input') c rest u'.bytes
        (omega (arith, room, length-drop r'.off r'.buf)) in
    let byte = byte_at-drop r'.buf r'.off c behind e in
    (
      advance r' 1,
      input',
      rw (read_byte, some_room, byte) refl,
      advance-Unread 1 r' input' u' room refl,
    )
