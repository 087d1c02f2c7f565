-- ===== src/Conn/Process/Closed.antt =====
-- `process` of src/conn/socket_handler.cc: what holds at each of its places, and at its end.
use shunya_kv.Prelude.{
  ◌≡◌, ◌⊎◌, inl, inr, refl, sym, subst, ◌∙◌, Bool, true, false, List, [], ◌++◌, if◌then◌else◌,
}
use shunya_kv.Prelude.Bytes.{Bytes}
use shunya_kv.Resp.{ParsedRequest}
use shunya_kv.Conn.{Handler, Extracted, write_done, fresh_handler, Reach, here, next}
use shunya_kv.Conn.Order.{answered, Reach-IsOrderly, at_place}
use shunya_kv.Conn.Progress.{IsFinished}
use shunya_kv.Conn.Process.{
  ProcessAt, greeting, looping, closing_out, closing_in, over, Process, fresh_process, ProcessStep,
  no_greeting, greets, greeting_fails, loops, loops_end, closes_out, closes_in, ProcessReach, begin,
  and_then,
}

abbrev pub greeting_text : Bool → Bytes → Bytes
greeting_text on details = if on then details else []

module _ {P : Type 0} (try_extract_request : P → Bytes → Extracted P) (on : Bool) (details : Bytes)
    (p : P) where
  -- The loops have run behind the whole greeting.
  abbrev pub HasRun : (ep : Bool) (greeted : Bytes) → Handler P → Type 0
  HasRun ep greeted h =
      (ep ≡ false)
      × (greeted ≡ greeting_text on details)
      × Reach try_extract_request (fresh_handler p) h

  -- The greeting has failed, and the loops were not begun.
  abbrev pub HasFailed : (ep : Bool) (greeted : Bytes) → Handler P → Type 0
  HasFailed ep greeted h =
      (ep ≡ true)
      × (on ≡ true)
      × (h ≡ fresh_handler p)
      × ((rest : Bytes) × (greeted ++ rest ≡ details))

  abbrev pub HasEnded : (ep : Bool) (greeted : Bytes) → Handler P → Type 0
  HasEnded ep greeted h = (HasRun ep greeted h × IsFinished h) ⊎ HasFailed ep greeted h

  abbrev pub Placed :
      (ep : Bool) (greeted : Bytes) (h : Handler P) (o i : Bool) → ProcessAt → Type 0
  Placed ep greeted h o i greeting =
      (ep ≡ false) × (greeted ≡ []) × (h ≡ fresh_handler p) × (o ≡ true) × (i ≡ true)
  Placed ep greeted h o i looping = HasRun ep greeted h × (o ≡ true) × (i ≡ true)
  Placed ep greeted h o i closing_out = HasEnded ep greeted h × (o ≡ true) × (i ≡ true)
  Placed ep greeted h o i closing_in = HasEnded ep greeted h × (o ≡ false) × (i ≡ true)
  Placed ep greeted h o i (over raised) =
      HasEnded ep greeted h × (raised ≡ ep) × (o ≡ false) × (i ≡ false)

  abbrev pub IsPlaced : Process P → Type 0
  IsPlaced s = Placed s.ep s.greeted s.handler s.out_open s.in_open s.at

  pub place_facts :
      (s : Process P) (w : ProcessAt)
      → s.at ≡ w
      → IsPlaced s
      → Placed s.ep s.greeted s.handler s.out_open s.in_open w
  place_facts s w at h = subst (Placed s.ep s.greeted s.handler s.out_open s.in_open) at h

  Step-IsPlaced :
      {s t : Process P} → ProcessStep try_extract_request on details s t → IsPlaced s → IsPlaced t
  Step-IsPlaced {s} (no_greeting at off) h =
      let (e, g, f, o, i) = place_facts s greeting at h in
      ((e, g ∙ rw off refl, subst (Reach try_extract_request (fresh_handler p)) (sym f) here), o, i)
  Step-IsPlaced {s} (greets at is_on) h =
      let (e, g, f, o, i) = place_facts s greeting at h in
      ((e, rw is_on refl, subst (Reach try_extract_request (fresh_handler p)) (sym f) here), o, i)
  Step-IsPlaced {s} (greeting_fails part rest at is_on whole) h =
      let (e, g, f, o, i) = place_facts s greeting at h in
      (inr (refl, is_on, f, (rest, whole)), o, i)
  Step-IsPlaced {s} (loops x at st) h =
      let ((e, g, r), o, i) = place_facts s looping at h in
      subst (Placed s.ep s.greeted x s.out_open s.in_open) (sym at) ((e, g, next r st), o, i)
  Step-IsPlaced {s} (loops_end at r w) h =
      let (run, o, i) = place_facts s looping at h in (inl (run, (r, w)), o, i)
  Step-IsPlaced {s} (closes_out at) h =
      let (x, o, i) = place_facts s closing_out at h in (x, refl, i)
  Step-IsPlaced {s} (closes_in at) h =
      let (x, o, i) = place_facts s closing_in at h in (x, refl, o, refl)

  pub Reach-IsPlaced :
      (s : Process P) → ProcessReach try_extract_request on details (fresh_process p) s → IsPlaced s
  Reach-IsPlaced s begin = (refl, refl, refl, refl, refl)
  Reach-IsPlaced s (and_then {t} r st) = Step-IsPlaced st (Reach-IsPlaced t r)

  -- What the peer of a connection was sent when `process` is over without an exception.
  abbrev pub WasServed : Process P → Type 0
  WasServed s =
      (s.greeted ≡ greeting_text on details)
      × IsFinished s.handler
      × ((rest : List ParsedRequest) × (s.handler.handled ≡ answered s.handler.sent ++ rest))

  -- What it was sent when an exception was raised.
  abbrev pub WasDropped : Process P → Type 0
  WasDropped s =
      (on ≡ true) × (s.handler ≡ fresh_handler p) × ((rest : Bytes) × (s.greeted ++ rest ≡ details))

  abbrev pub Outcome : Bool → Process P → Type 0
  Outcome false s = WasServed s
  Outcome true s = WasDropped s

  served : (s : Process P) → HasEnded s.ep s.greeted s.handler → Outcome s.ep s
  served s (inl ((e, g, r), (a, w))) =
      let (rest, same, _, _) =
        at_place s.handler write_done w (Reach-IsOrderly try_extract_request p r) in
      subst (λ b. Outcome b s) (sym e) (g, (a, w), (rest, same))
  served s (inr (e, is_on, f, x)) = subst (λ b. Outcome b s) (sym e) (is_on, f, x)

  -- When `process` is over, both streams were closed. Without an exception, the peer was sent the whole
  -- greeting if it is switched on, and nothing else before the replies; both loops have ended, and the
  -- requests that were answered are the first ones that were handled, in order. With an exception, the
  -- greeting is switched on, a first part of it was written, and the loops were not begun.
  pub Reach-closed :
      (s : Process P) (raised : Bool)
      → ProcessReach try_extract_request on details (fresh_process p) s
      → s.at ≡ over raised
      → (s.out_open ≡ false) × (s.in_open ≡ false) × Outcome raised s
  Reach-closed s raised r at =
      let (x, e, o, i) = place_facts s (over raised) at (Reach-IsPlaced s r) in
      (o, i, subst (λ b. Outcome b s) (sym e) (served s x))
