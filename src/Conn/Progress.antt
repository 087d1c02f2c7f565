-- ===== src/Conn/Progress.antt =====
-- That the two loops of src/conn/socket_handler.cc get on: where they can stop, and that an ended
-- input is answered in full.
use shunya_kv.Prelude.{
  ℕ, ◌<◌, ◌≡◌, ◌≢◌, ◌⊎◌, inl, inr, refl, sym, ap, subst, ◌∙◌, true, none, some, List, [], ◌∷◌, ◌++◌,
  append-nil, append_assoc, arith, Bool-cases, ltb,
}
use shunya_kv.Prelude.Bytes.{Bytes}
use shunya_kv.Resp.{ParsedRequest}
use shunya_kv.Conn.{
  Extracted, extracts, throws, ReadAt, WriteAt, reading, extracting, wants_slot, looking, sleeping,
  write_done, answering, read_done, Handler, fresh_handler, replied, Step, read_chunk, read_ends,
  extract_waits, extract_request, extract_throws, take_slot, fall_asleep, write_ends, pop_front,
  write_reply, reply_fails, Reach, here, next,
}
use shunya_kv.Conn.Order.{answered, answered-snoc, IsOrderly, Marked, at_place, Reach-IsOrderly}

ReadAt-cases :
    (r : ReadAt)
    → (r ≡ reading)
      ⊎ (r ≡ extracting)
      ⊎ (r ≡ read_done)
      ⊎ ((q : ParsedRequest) × (r ≡ wants_slot q))
ReadAt-cases reading = inl refl
ReadAt-cases extracting = inr (inl refl)
ReadAt-cases read_done = inr (inr (inl refl))
ReadAt-cases (wants_slot q) = inr (inr (inr (q, refl)))

WriteAt-cases :
    (w : WriteAt)
    → (w ≡ looking) ⊎ (w ≡ sleeping) ⊎ (w ≡ write_done) ⊎ ((q : ParsedRequest) × (w ≡ answering q))
WriteAt-cases looking = inl refl
WriteAt-cases sleeping = inr (inl refl)
WriteAt-cases write_done = inr (inr (inl refl))
WriteAt-cases (answering q) = inr (inr (inr (q, refl)))

queue-cases :
    (l : List ParsedRequest)
    → (l ≡ []) ⊎ ((r : ParsedRequest) × (q : List ParsedRequest) × (l ≡ r ∷ q))
queue-cases [] = inl refl
queue-cases (r ∷ q) = inr (r, q, refl)

slots-cases : (n : ℕ) → (n ≡ 0) ⊎ (0 < n)
slots-cases n = elim (Bool-cases (ltb 0 n)) [
  | inl t ↦ inr (ground (arith, t))
  | inr t ↦ inl (ground (arith, t))
]

module _ {P : Type 0} where
  -- Both loops have ended.
  abbrev pub IsFinished : Handler P → Type 0
  IsFinished s = (s.read_at ≡ read_done) × (s.write_at ≡ write_done)

  -- The read loop waits for a slot, and the write loop, which alone gives slots back, has ended.
  abbrev pub IsStuck : Handler P → Type 0
  IsStuck s =
      (s.write_at ≡ write_done) × (s.slots ≡ 0) × ((r : ParsedRequest) × (s.read_at ≡ wants_slot r))

module _ {P : Type 0} (try_extract_request : P → Bytes → Extracted P) where
  abbrev pub Enabled : Handler P → Type 0
  Enabled s = (t : Handler P) × Step try_extract_request s t

  -- The parser's turn.
  extract-Enabled : (s : Handler P) → s.read_at ≡ extracting → Enabled s
  extract-Enabled s at = hook (try_extract_request s.parser s.buffer) refl
    where
      hook : (x : Extracted P) → try_extract_request s.parser s.buffer ≡ x → Enabled s
      hook (extracts p b none) e = (_, extract_waits p b at e)
      hook (extracts p b (some r)) e = (_, extract_request p b r at e)
      hook throws e = (_, extract_throws at e)

  -- The write loop's turn, when it looks at the queue.
  look-Enabled : (s : Handler P) → s.write_at ≡ looking → Enabled s
  look-Enabled s at = elim (queue-cases s.respq) [
    | inl empty ↦ elim (Bool-cases s.eof) [
      | inl t ↦ (_, write_ends at empty t)
      | inr t ↦ (_, fall_asleep at empty t)
    ]
    | inr (r, q, front) ↦ (_, pop_front r q at front)
  ]

  -- Where the write loop can stop for good: after the end of the input, or without slots.
  write-Enabled :
      (s : Handler P)
      → IsOrderly s
      → (s.read_at ≡ read_done) ⊎ (s.slots ≡ 0)
      → Enabled s ⊎ (s.write_at ≡ write_done)
  write-Enabled s o why = elim (WriteAt-cases s.write_at) [
    | inl at ↦ inl (look-Enabled s at)
    | inr (inl at) ↦
        let (order, count, empty, run) = at_place s sleeping at o in
        elim why [
          | inl done ↦
              let marked : s.eof ≡ true = subst (λ r. Marked r s.eof) done o.marked in
              absurd (cc (marked, run))
          | inr zero_slots ↦ absurd (omega (arith, count, zero_slots))
        ]
    | inr (inr (inl at)) ↦ inr at
    | inr (inr (inr (r, at))) ↦ inl (_, reply_fails r at)
  ]

  -- A connection that has started can always make a step, if only by what the network does, until
  -- both loops have ended; with one exception: the write loop has ended after a failure, and the read
  -- loop has used up the slots that were given back then.
  pub Reach-Enabled :
      (p : P) (s : Handler P)
      → Reach try_extract_request (fresh_handler p) s
      → Enabled s ⊎ (IsFinished s ⊎ IsStuck s)
  Reach-Enabled p s run =
      let o = Reach-IsOrderly try_extract_request p run in
      elim (ReadAt-cases s.read_at) [
        | inl at ↦ inl (_, read_ends at)
        | inr (inl at) ↦ inl (extract-Enabled s at)
        | inr (inr (inl at)) ↦ elim (write-Enabled s o (inl at)) [
          | inl e ↦ inl e
          | inr w ↦ inr (inl (at, w))
        ]
        | inr (inr (inr (r, at))) ↦ elim (slots-cases s.slots) [
          | inl z ↦ elim (write-Enabled s o (inr z)) [
            | inl e ↦ inl e
            | inr w ↦ inr (inr (w, z, (r, at)))
          ]
          | inr h ↦ inl (_, take_slot r at h)
        ]
      ]

  -- In the exception there is no step.
  pub not-Step_of_IsStuck : (s t : Handler P) → IsStuck s → ¬ Step try_extract_request s t
  not-Step_of_IsStuck s t (w, z, (r, at)) (read_chunk c h ne) = absurd (cc (sym at ∙ h))
  not-Step_of_IsStuck s t (w, z, (r, at)) (read_ends h) = absurd (cc (sym at ∙ h))
  not-Step_of_IsStuck s t (w, z, (r, at)) (extract_waits p b h e) = absurd (cc (sym at ∙ h))
  not-Step_of_IsStuck s t (w, z, (r, at)) (extract_request p b q h e) = absurd (cc (sym at ∙ h))
  not-Step_of_IsStuck s t (w, z, (r, at)) (extract_throws h e) = absurd (cc (sym at ∙ h))
  not-Step_of_IsStuck s t (w, z, (r, at)) (take_slot q h l) = absurd (omega (arith, z, l))
  not-Step_of_IsStuck s t (w, z, (r, at)) (fall_asleep h e f) = absurd (cc (sym w ∙ h))
  not-Step_of_IsStuck s t (w, z, (r, at)) (write_ends h e f) = absurd (cc (sym w ∙ h))
  not-Step_of_IsStuck s t (w, z, (r, at)) (pop_front q l h e) = absurd (cc (sym w ∙ h))
  not-Step_of_IsStuck s t (w, z, (r, at)) (write_reply q b h) = absurd (cc (sym w ∙ h))
  not-Step_of_IsStuck s t (w, z, (r, at)) (reply_fails q h) = absurd (cc (sym w ∙ h))

  -- The rest of the queue is answered, from where the write loop looks at it.
  drain :
      (reply : ParsedRequest → Bytes) (q : List ParsedRequest) {s₀ : Handler P} (s : Handler P)
      → Reach try_extract_request s₀ s
      → s.write_at ≡ looking
      → s.respq ≡ q
      → s.eof ≡ true
      → (t : Handler P) × Reach try_extract_request s₀ t
        × (t.write_at ≡ write_done)
        × (answered t.sent ≡ answered s.sent ++ q)
        × (t.handled ≡ s.handled)
        × (t.read_at ≡ s.read_at)
  drain reply [] s run at empty ended = (
    _,
    next run (write_ends at empty ended),
    refl,
    sym (append-nil (answered s.sent)),
    refl,
    refl,
  )
  drain reply (r ∷ q) s run at front ended =
      let popped : Handler P = record s { respq = q; write_at = answering r } in
      let t : Handler P = replied popped r (reply r) in
      let run' : Reach try_extract_request _ t =
        next (next run (pop_front r q at front)) (write_reply r (reply r) refl) in
      let (u, reach, done, order, same, stays) = drain reply q t run' refl refl ended in
      (
        u,
        reach,
        done,
        order
            ∙ ap (λ l. l ++ q) (answered-snoc s.sent r (reply r))
            ∙ append_assoc (answered s.sent) (r ∷ []) q,
        same,
        stays,
      )

  -- After the end of the input, and while the write loop has not failed: whatever the replies are,
  -- there are steps that end both loops, with every handled request answered, in order.
  pub Reach-drain :
      (reply : ParsedRequest → Bytes) (p : P) (s : Handler P)
      → Reach try_extract_request (fresh_handler p) s
      → s.read_at ≡ read_done
      → s.write_at ≢ write_done
      → (t : Handler P) × Reach try_extract_request s t
        × IsFinished t
        × (answered t.sent ≡ s.handled)
        × (t.handled ≡ s.handled)
  Reach-drain reply p s run ended going =
      let o = Reach-IsOrderly try_extract_request p run in
      let marked : s.eof ≡ true = subst (λ r. Marked r s.eof) ended o.marked in
      elim (WriteAt-cases s.write_at) [
        | inl at ↦
            let (order, count) = at_place s looking at o in
            let (t, reach, done, all, same, stays) = drain reply s.respq s here at refl marked in
            (t, reach, (stays ∙ ended, done), all ∙ sym order, same)
        | inr (inl at) ↦
            let (order, count, empty, awake) = at_place s sleeping at o in
            absurd (cc (marked, awake))
        | inr (inr (inl at)) ↦ absurd (going at)
        | inr (inr (inr (r, at))) ↦
            let (order, count) = at_place s (answering r) at o in
            let written : Handler P = replied s r (reply r) in
            let (t, reach, done, all, same, stays) =
              drain reply s.respq written (next here (write_reply r (reply r) at)) refl refl
                marked in
            (
              t,
              reach,
              (stays ∙ ended, done),
              all
                  ∙ ap (λ l. l ++ s.respq) (answered-snoc s.sent r (reply r))
                  ∙ append_assoc (answered s.sent) (r ∷ []) s.respq
                  ∙ sym order,
              same,
            )
      ]
