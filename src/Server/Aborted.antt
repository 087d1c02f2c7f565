-- ===== src/Server/Aborted.antt =====
-- The listeners of src/conn/socket_server.cc: each accept loop has its listener, and behind `stop` the
-- listener of every loop has been aborted.
use shunya_kv.Prelude.{
  ℕ, zero, suc, ◌<◌, ◌≡◌, inl, inr, refl, sym, ap, subst, ◌∙◌, Bool, true, false, Bool-cases, not,
  ◌&&◌, List, [], ◌∷◌, ◌++◌, map, length, length-append, All, arith,
}
use shunya_kv.Server.Tasks.{Gate, entering}
use shunya_kv.Server.{
  LoopAt, turning, accepting, ended, ListenOptions, Listener, abort_accept, Loop, AcceptResult,
  Server, fresh_server, do_accepts, listen, turn, serve, stop, Step, sets_handler, sets_credentials,
  sets_keepalive, listens, turns, accepts, accept_fails, processed, stops, Reach, here, next,
}
use shunya_kv.Server.Counts.{serve-loops}

-- The numbers of the loops' listeners.
abbrev pub places : List Loop → List ℕ
places ls = map (λ l. l.which) ls

-- Whether the listener with a number has been aborted.
abbrev pub is_aborted_at : {Address : Type 0} → List (Listener Address) → ℕ → Bool
is_aborted_at [] n = false
is_aborted_at (l ∷ ls) zero = l.is_aborted
is_aborted_at (l ∷ ls) (suc n) = is_aborted_at ls n

weaken : (P Q : ℕ → Type 0) (ns : List ℕ) → ((n : ℕ) → P n → Q n) → All P ns → All Q ns
weaken P Q [] f h = tt
weaken P Q (n ∷ ns) f (h, hs) = (f n h, weaken P Q ns f hs)

both : (P Q : ℕ → Type 0) (ns : List ℕ) → All P ns → All Q ns → All (λ n. P n × Q n) ns
both P Q [] h k = tt
both P Q (n ∷ ns) (h, hs) (k, ks) = ((h, k), both P Q ns hs ks)

All-places-snoc :
    (P : ℕ → Type 0) (ls : List Loop) (l : Loop)
    → All P (places ls)
    → P l.which
    → All P (places (ls ++ l ∷ []))
All-places-snoc P [] l h p = (p, tt)
All-places-snoc P (m ∷ ls) l (h, hs) p = (h, All-places-snoc P ls l hs p)

places-moved :
    (a : List Loop) (l : Loop) (b : List Loop) (w : LoopAt)
    → places (a ++ record l { at = w } ∷ b) ≡ places (a ++ l ∷ b)
places-moved [] l b w = refl
places-moved (m ∷ a) l b w = ap (◌∷◌ m.which) (places-moved a l b w)

-- The loop between `a` and `b`.
pub All-places-middle :
    (P : ℕ → Type 0) (a : List Loop) (l : Loop) (b : List Loop)
    → All P (places (a ++ l ∷ b))
    → P l.which
All-places-middle P [] l b (h, hs) = h
All-places-middle P (m ∷ a) l b (h, hs) = All-places-middle P a l b hs

module _ {Address : Type 0} where
  is_aborted_at-append :
      (ls ms : List (Listener Address)) (n : ℕ)
      → n < length ls
      → is_aborted_at (ls ++ ms) n ≡ is_aborted_at ls n
  is_aborted_at-append [] ms n low = absurd (omega arith)
  is_aborted_at-append (l ∷ ls) ms zero low = refl
  is_aborted_at-append (l ∷ ls) ms (suc n) low = is_aborted_at-append ls ms n (omega arith)

  is_aborted_at-abort_accept :
      (ls : List (Listener Address)) (n : ℕ)
      → n < length ls
      → is_aborted_at (map abort_accept ls) n ≡ true
  is_aborted_at-abort_accept [] n low = absurd (omega arith)
  is_aborted_at-abort_accept (l ∷ ls) zero low = refl
  is_aborted_at-abort_accept (l ∷ ls) (suc n) low = is_aborted_at-abort_accept ls n (omega arith)

  length-abort_accept : (ls : List (Listener Address)) → length (map abort_accept ls) ≡ length ls
  length-abort_accept [] = refl
  length-abort_accept (l ∷ ls) = ap suc (length-abort_accept ls)

  -- The loops that there may be with these listeners, and with a gate that is closed or not.
  pub record Fit (ls : List (Listener Address)) (ns : List ℕ) (closed : Bool) : Type 0 where
    pub known : All (λ n. n < length ls) ns
    pub aborted : closed ≡ true → All (λ n. is_aborted_at ls n ≡ true) ns

  listened :
      (ls ms : List (Listener Address)) (ns : List ℕ) (c : Bool) → Fit ls ns c → Fit (ls ++ ms) ns c
  listened ls ms ns c f =
      let longer = length-append ls ms in
      record {
        known = weaken _ _ ns (λ n low. omega (arith, longer, low)) f.known;
        aborted = λ c.
            weaken _ _ ns (λ n h. is_aborted_at-append ls ms n h.0 ∙ h.1)
              (both _ _ ns f.known (f.aborted c));
      }

left : (G : Gate) (g : G.State) → G.is_closed (G.leave g) ≡ true → G.is_closed g ≡ true
left G g h = sym (G.is_closed-leave g) ∙ h

module _ (G : Gate) {Address Keepalive : Type 0} where
  abbrev pub HasListeners : Server G Address Keepalive → Type 0
  HasListeners s = Fit s.listeners (places s.loops) (G.is_closed s.task_gate)

  do_accepts-HasListeners :
      (s : Server G Address Keepalive) (which : ℕ) (tls : Bool)
      → which < length s.listeners
      → HasListeners s
      → HasListeners (do_accepts G s which tls)
  unfolding do_accepts
  do_accepts-HasListeners s which tls low f = elim (entering G s.task_gate) [
    | inl (closed, e) ↦ rw (e, do_accepts) f
    | inr (h, e, count, still) ↦
        rw (e, do_accepts)
          (record {
            known = All-places-snoc _ s.loops _ f.known low;
            aborted = λ c. absurd (cc (still, c));
          })
  ]

  listen-HasListeners :
      (s : Server G Address Keepalive) (addr : Address) (lo : ListenOptions) (creds : Bool)
      → HasListeners s
      → HasListeners (listen G s addr lo creds)
  unfolding listen
  listen-HasListeners s addr lo creds f =
      do_accepts-HasListeners _ (length s.listeners) creds
        (omega (arith, length-append s.listeners (_ ∷ [])))
        (listened s.listeners _ (places s.loops) (G.is_closed s.task_gate) f)

  -- A loop at another place, behind which the gate is as it was.
  moved :
      (s : Server G Address Keepalive) (a : List Loop) (l : Loop) (b : List Loop) (w : LoopAt)
      (c : Bool)
      → s.loops ≡ a ++ l ∷ b
      → (c ≡ true → G.is_closed s.task_gate ≡ true)
      → HasListeners s
      → Fit s.listeners (places (a ++ record l { at = w } ∷ b)) c
  moved s a l b w c e back f =
      let same = ap places e ∙ sym (places-moved a l b w) in
      record {
        known = subst (All (λ n. n < length s.listeners)) same f.known;
        aborted =
            λ h. subst (All (λ n. is_aborted_at s.listeners n ≡ true)) same (f.aborted (back h));
      }

  turn-HasListeners :
      (s : Server G Address Keepalive) (a : List Loop) (l : Loop) (b : List Loop)
      → s.loops ≡ a ++ l ∷ b
      → HasListeners s
      → HasListeners (turn G s a l b)
  unfolding turn
  turn-HasListeners s a l b e f = elim (entering G s.task_gate) [
    | inl (closed, x) ↦ rw (x, turn) (moved s a l b ended _ e (left G s.task_gate) f)
    | inr (h, x, count, still) ↦
        rw (x, turn) (moved s a l b accepting _ e (λ c. absurd (cc (still, c))) f)
  ]

  -- A server whose gate is open or as it was, with the same listeners and loops.
  serve-HasListeners :
      (s : Server G Address Keepalive) (made : Bool) (ar : AcceptResult Address) (tls : Bool)
      → HasListeners s
      → HasListeners (serve G s made ar tls)
  unfolding serve
  serve-HasListeners s made ar tls f = elim (Bool-cases (not (s.has_handler && made))) [
    | inl t ↦ rw t f
    | inr t ↦ elim (entering G s.task_gate) [
      | inl (closed, e) ↦ rw (t, e, serve) (record { known = f.known; aborted = f.aborted })
      | inr (h, e, count, still) ↦
          rw (t, e, serve) (record { known = f.known; aborted = λ c. absurd (cc (still, c)) })
    ]
  ]

  stop-HasListeners : (s : Server G Address Keepalive) → HasListeners s → HasListeners (stop G s)
  unfolding stop
  stop-HasListeners s f =
      let same = length-abort_accept s.listeners in
      record {
        known = weaken _ _ (places s.loops) (λ n low. omega (arith, same, low)) f.known;
        aborted = λ h.
            weaken _ _ (places s.loops) (λ n low. is_aborted_at-abort_accept s.listeners n low)
              f.known;
      }

  Step-HasListeners :
      {s t : Server G Address Keepalive} → Step G s t → HasListeners s → HasListeners t
  Step-HasListeners (sets_handler given) f = record { known = f.known; aborted = f.aborted }
  Step-HasListeners (sets_credentials given) f = record { known = f.known; aborted = f.aborted }
  Step-HasListeners (sets_keepalive params) f = record { known = f.known; aborted = f.aborted }
  Step-HasListeners {s} (listens addr lo creds) f = listen-HasListeners s addr lo creds f
  Step-HasListeners {s} (turns a l b e at) f = turn-HasListeners s a l b e f
  Step-HasListeners {s} (accepts a l b made ar e at) f =
      moved (serve G s made ar l.tls) a l b turning _ (serve-loops G s made ar l.tls ∙ e)
        (left G (serve G s made ar l.tls).task_gate) (serve-HasListeners s made ar l.tls f)
  Step-HasListeners {s} (accept_fails a l b e at) f =
      moved s a l b turning _ e (left G s.task_gate) f
  Step-HasListeners {s} (processed a c b e) f = record {
    known = f.known;
    aborted = λ h. f.aborted (left G s.task_gate h);
  }
  Step-HasListeners {s} stops f = stop-HasListeners s f

  pub Reach-HasListeners :
      (g : G.State) {s : Server G Address Keepalive} → Reach G (fresh_server G g) s → HasListeners s
  Reach-HasListeners g here = record { known = tt; aborted = λ h. tt }
  Reach-HasListeners g (next r st) = Step-HasListeners st (Reach-HasListeners g r)
