-- ===== src/Conn/Requests/Sync.antt =====
-- How one call of the RESP hook, src/conn/resp_handler.cc, moves through the requests that the peer
-- sends, when only some of their bytes have come.
use shunya_kv.Prelude.{
  nil_of_length, ℕ, ◌≤◌, ◌<◌, ◌≡◌, ◌≢◌, ◌⊎◌, refl, sym, ap, ◌∙◌, inl, inr, none, some, List, [],
  ◌∷◌, ◌++◌, append-nil, arith, length, length-append, length-drop, drop, All, ltb, Bool-cases,
  subst,
}
use shunya_kv.Prelude.Bytes.{Bytes}
use shunya_kv.Resp.Writer.{IsDecimal, write_array_bulk}
use shunya_kv.Resp.Stream.{Processor, need_star, try_extract_request}
use shunya_kv.Resp.Stream.RoundTrip.{try_extract_request-write_array_bulk}
use shunya_kv.Resp.Stream.Prefix.{try_extract_request-idle, try_extract_request-prefix}
use shunya_kv.Conn.Requests.{extract_resp, as_extracted, Fits, wire, request}
use shunya_kv.Conn.{extracts}

positive : (s : Bytes) → s ≢ [] → 0 < length s
positive [] h = absurd (h refl)
positive (c ∷ s) h = omega arith

-- Bytes cut in two places: what lies between the cuts.
cut_twice :
    (a b c d : Bytes)
    → a ++ b ≡ c ++ d
    → ((m : Bytes) × (a ≡ c ++ m) × (m ++ b ≡ d)) ⊎ ((m : Bytes) × (m ≢ []) × (a ++ m ≡ c))
cut_twice a b [] d e = inl (a, refl, e)
cut_twice [] b (z ∷ c) d e = inr (z ∷ c, λ k. cc, refl)
cut_twice (x ∷ a) b (z ∷ c) d e =
    let same : x ≡ z = cc (e) in
    elim (cut_twice a b c d (cc (e))) [
      | inl (m, f, g) ↦ inl (m, cc (f, same), g)
      | inr (m, ne, f) ↦ inr (m, ne, cc (f, same))
    ]

module _ (to_sstring : ℕ → Bytes) where
  -- The parser, with this buffer, stands before the requests `rest`, of whose bytes `future` have
  -- not come yet: it does what a parser does that stands at the beginning of the first of them.
  pub record IsSync (parser : Processor) (buffer : Bytes) (rest : List (List Bytes))
      (future : Bytes) : Type 0 where
    pub start : Processor
    pub between : start.st ≡ need_star
    pub inside : start.pos ≤ length buffer
    pub low : start.pos < 4096
    pub same :
        (later : Bytes)
        → try_extract_request parser (buffer ++ later) ≡ try_extract_request start (buffer ++ later)
    pub unread : drop start.pos buffer ++ future ≡ wire to_sstring rest

  pub now :
      {parser : Processor} {buffer : Bytes} {rest : List (List Bytes)} {future : Bytes}
      (s : IsSync parser buffer rest future)
      → try_extract_request parser buffer ≡ try_extract_request s.start buffer
  now {parser} {buffer} s =
      subst (λ b. try_extract_request parser b ≡ try_extract_request s.start b) (append-nil buffer)
        (s.same [])

  -- Of the next request, some bytes have not come yet.
  abbrev pub IsWaiting : (rest : List (List Bytes)) (unread : Bytes) → Type 0
  IsWaiting [] unread = unread ≡ []
  IsWaiting (args ∷ more) unread = length unread < length (write_array_bulk to_sstring [] args)

  -- The next request is handed on, or the call waits since its bytes have not all come.
  abbrev pub Extraction : Processor → Bytes → List (List Bytes) → Bytes → Type 0
  Extraction parser buffer rest future =
      ((q : Processor) × (b : Bytes) × (args : List Bytes) × (more : List (List Bytes)) × (rest
          ≡ args ∷ more)
        × (extract_resp parser buffer ≡ extracts q b (some (request to_sstring args)))
        × IsSync q b more future)
      ⊎ ((q : Processor) × (b : Bytes) × (extract_resp parser buffer ≡ extracts q b none)
          × (y : IsSync q b rest future) × IsWaiting rest (drop y.start.pos b))

  -- Nothing is unread.
  idle_Extraction :
      (parser : Processor) (buffer : Bytes) (rest : List (List Bytes)) (future : Bytes)
      (s : IsSync parser buffer rest future)
      → s.start.pos ≡ length buffer
      → IsWaiting rest []
      → Extraction parser buffer rest future
  unfolding extract_resp
  idle_Extraction parser buffer rest future s at waiting =
      let empty : drop s.start.pos buffer ≡ [] =
        nil_of_length _ (omega (arith, length-drop s.start.pos buffer)) in
      inr (
        record s.start { pos = 0 },
        [],
        ap as_extracted (now s ∙ try_extract_request-idle s.start buffer s.between at),
        record {
          start = record s.start { pos = 0 };
          between = s.between;
          inside = omega arith;
          low = omega arith;
          same = λ later. refl;
          unread = sym (ap (λ z. z ++ future) empty) ∙ s.unread;
        },
        waiting,
      )

nil_left : (s t : Bytes) → s ++ t ≡ [] → s ≡ []
nil_left [] t e = refl
nil_left (c ∷ s) t e = cc

module _ (to_sstring : ℕ → Bytes) (decimal : IsDecimal to_sstring) (parser : Processor)
    (buffer : Bytes) (future : Bytes) where
  -- Some bytes of the next request are missing.
  partial_Extraction :
      (args : List Bytes) (more : List (List Bytes)) (missing : Bytes)
      (s : IsSync to_sstring parser buffer (args ∷ more) future)
      → Fits to_sstring args
      → missing ≢ []
      → drop s.start.pos buffer ++ missing ≡ write_array_bulk to_sstring [] args
      → Extraction to_sstring parser buffer (args ∷ more) future
  unfolding extract_resp
  partial_Extraction args more missing s fits ne e =
      let part = drop s.start.pos buffer in
      let nonempty : 0 < length missing = positive missing ne in
      let longer : length part < length (write_array_bulk to_sstring [] args) =
        omega (arith, ap length e, length-append part missing) in
      elim (Bool-cases (ltb s.start.pos (length buffer))) [
        | inl h ↦
            let (q, got, onward) =
              try_extract_request-prefix to_sstring decimal s.start buffer missing args s.between
                (ground (arith, h)) fits.some_args fits.few fits.small
                (omega (arith, s.low, fits.short)) e ne in
            inr (
              q,
              buffer,
              ap as_extracted (now to_sstring s ∙ got),
              record {
                start = s.start;
                between = s.between;
                inside = s.inside;
                low = s.low;
                same = onward;
                unread = s.unread;
              },
              longer,
            )
        | inr h ↦
            idle_Extraction to_sstring parser buffer (args ∷ more) future s
              (ground (arith, h, s.inside)) (omega (arith, longer))
      ]

  -- One call of the hook.
  pub extract_resp-Extraction :
      (rest : List (List Bytes))
      → All (Fits to_sstring) rest
      → IsSync to_sstring parser buffer rest future
      → Extraction to_sstring parser buffer rest future
  unfolding extract_resp
  extract_resp-Extraction [] fits s =
      let empty = nil_left (drop s.start.pos buffer) future s.unread in
      idle_Extraction to_sstring parser buffer [] future s
        (omega (arith, s.inside, ap length empty, length-drop s.start.pos buffer)) refl
  extract_resp-Extraction (args ∷ more) (fits, others) s =
      elim (cut_twice (drop s.start.pos buffer) future (write_array_bulk to_sstring [] args)
        (wire to_sstring more) s.unread) [
          | inl (m, e, left) ↦
              let (q, b, got, between, inside, low, behind) =
                try_extract_request-write_array_bulk to_sstring decimal s.start buffer args m
                  s.between s.inside fits.some_args fits.few fits.small
                  (omega (arith, s.low, fits.short)) e in
              inl (
                q,
                b,
                args,
                more,
                refl,
                ap as_extracted (now to_sstring s ∙ got),
                record {
                  start = q;
                  between = between;
                  inside = inside;
                  low = low;
                  same = λ later. refl;
                  unread = ap (λ z. z ++ future) behind ∙ left;
                },
              )
          | inr (m, ne, e) ↦ partial_Extraction args more m s fits ne e
        ]
