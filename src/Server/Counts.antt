-- ===== src/Server/Counts.antt =====
-- What the counters, the gate and the list of connections of src/conn/socket_server.cc say about each
-- other, in every state that the server can reach.
use shunya_kv.Prelude.{
  ℕ, suc, ◌+◌, ◌%◌, ◌^◌, ◌≡◌, inl, inr, refl, sym, ap, subst, ◌∙◌, Bool, true, Bool-cases, not,
  ◌&&◌, List, [], ◌∷◌, ◌++◌, append-nil, map, length, length-append, All, arith,
}
use shunya_kv.Server.Tasks.{Gate, entering}
use shunya_kv.Server.{
  LoopAt, turning, accepting, ended, ListenOptions, Loop, Connection, AcceptResult, Server,
  fresh_server, destroy, shutdown, new_connection, do_accepts, listen, turn, serve, stop, Step,
  sets_handler, sets_credentials, sets_keepalive, listens, turns, accepts, accept_fails, processed,
  stops, Reach, here, next,
}

-- How many times an accept loop is inside the gate.
abbrev pub held : LoopAt → ℕ
held turning = 1
held accepting = 2
held ended = 0

abbrev pub tasks : List Loop → ℕ
tasks [] = 0
tasks (l ∷ ls) = held l.at + tasks ls

tasks-append : (a b : List Loop) → tasks (a ++ b) ≡ tasks a + tasks b
tasks-append [] b = omega arith
tasks-append (l ∷ a) b = omega (arith, tasks-append a b)

-- A loop at another place.
pub tasks-moved :
    (ls a : List Loop) (l : Loop) (b : List Loop) (w : LoopAt)
    → ls ≡ a ++ l ∷ b
    → tasks (a ++ record l { at = w } ∷ b) + held l.at ≡ tasks ls + held w
tasks-moved ls a l b w e =
    omega (arith, ap tasks e, tasks-append a (l ∷ b), tasks-append a (record l { at = w } ∷ b))

module _ (G : Gate) {Address Keepalive : Type 0} where
  abbrev pub AllShut : List (Connection Address Keepalive) → Type 0
  AllShut cs = All (λ c. c.is_shut ≡ true) cs

  -- The gate holds a task for each turn of a loop, each `accept` and each connection; the counter says
  -- how many connections there are; and a closed gate has only connections inside that were shut down.
  pub record IsCounted (s : Server G Address Keepalive) : Type 0 where
    pub entered : G.count s.task_gate ≡ tasks s.loops + length s.connections
    pub current : s.current_connections ≡ length s.connections % 2 ^ 64
    pub shut : G.is_closed s.task_gate ≡ true → AllShut s.connections

  do_accepts-IsCounted :
      (s : Server G Address Keepalive) (which : ℕ) (tls : Bool)
      → IsCounted s
      → IsCounted (do_accepts G s which tls)
  unfolding do_accepts
  do_accepts-IsCounted s which tls i = elim (entering G s.task_gate) [
    | inl (closed, e) ↦ rw (e, do_accepts) i
    | inr (h, e, count, still) ↦
        rw (e, do_accepts)
          (record {
            entered = omega (
              arith,
              count,
              i.entered,
              tasks-append s.loops (record { which = which; tls = tls; at = turning } ∷ []),
            );
            current = i.current;
            shut = λ c. absurd (cc (still, c));
          })
  ]

  listen-IsCounted :
      (s : Server G Address Keepalive) (addr : Address) (lo : ListenOptions) (creds : Bool)
      → IsCounted s
      → IsCounted (listen G s addr lo creds)
  unfolding listen
  listen-IsCounted s addr lo creds i =
      do_accepts-IsCounted _ (length s.listeners) creds
        (record { entered = i.entered; current = i.current; shut = i.shut })

  module _ (s : Server G Address Keepalive) (a : List Loop) (l : Loop) (b : List Loop)
      (e : s.loops ≡ a ++ l ∷ b) (i : IsCounted s) where
    -- A loop leaves the gate once.
    moved-IsCounted :
        (w : LoopAt)
        → held l.at ≡ held w + 1
        → IsCounted
            (record s { task_gate = G.leave s.task_gate; loops = a ++ record l { at = w } ∷ b })
    moved-IsCounted w h =
        let moved = tasks-moved s.loops a l b w e in
        let n = tasks (a ++ record l { at = w } ∷ b) + length s.connections in
        let some_task : G.count s.task_gate ≡ suc n = omega (arith, i.entered, moved, h) in
        record {
          entered = G.count-leave s.task_gate n some_task;
          current = i.current;
          shut = λ c. i.shut (sym (G.is_closed-leave s.task_gate) ∙ c);
        }

    turn-IsCounted : l.at ≡ turning → IsCounted (turn G s a l b)
    unfolding turn
    turn-IsCounted at = elim (entering G s.task_gate) [
      | inl (closed, f) ↦ rw (f, turn) (moved-IsCounted ended (ap held at))
      | inr (h, f, count, still) ↦
          let moved = tasks-moved s.loops a l b accepting e in
          let one : held l.at ≡ 1 = ap held at in
          rw (f, turn)
            (record {
              entered = omega (arith, count, i.entered, moved, one);
              current = i.current;
              shut = λ c. absurd (cc (still, c));
            })
    ]

  pub serve-loops :
      (s : Server G Address Keepalive) (made : Bool) (ar : AcceptResult Address) (tls : Bool)
      → (serve G s made ar tls).loops ≡ s.loops
  unfolding serve
  serve-loops s made ar tls = elim (Bool-cases (not (s.has_handler && made))) [
    | inl t ↦ rw t refl
    | inr f ↦ elim (entering G s.task_gate) [
      | inl (closed, e) ↦ rw (f, e, serve) refl
      | inr (h, e, count, still) ↦ rw (f, e, serve) refl
    ]
  ]

  serve-IsCounted :
      (s : Server G Address Keepalive) (made : Bool) (ar : AcceptResult Address) (tls : Bool)
      → IsCounted s
      → IsCounted (serve G s made ar tls)
  unfolding serve
  serve-IsCounted s made ar tls i = elim (Bool-cases (not (s.has_handler && made))) [
    | inl t ↦ rw t i
    | inr f ↦
        let longer =
          length-append s.connections (new_connection G ar tls s.keepalive_params ∷ []) in
        elim (entering G s.task_gate) [
          | inl (closed, e) ↦
              rw (f, e, serve)
                (record {
                  entered =
                      i.entered
                      ∙ ap (λ z. tasks s.loops + length z) (sym (append-nil s.connections));
                  current = ground (arith, i.current, append-nil s.connections);
                  shut = λ c. subst AllShut (sym (append-nil s.connections)) (i.shut c);
                })
          | inr (h, e, count, still) ↦
              rw (f, e, serve)
                (record {
                  entered = omega (arith, i.entered, count, longer);
                  current = omega (arith, i.current, longer);
                  shut = λ c. absurd (cc (still, c));
                })
        ]
  ]

  AllShut-without :
      (a : List (Connection Address Keepalive)) (c : Connection Address Keepalive)
      (b : List (Connection Address Keepalive))
      → AllShut (a ++ c ∷ b)
      → AllShut (a ++ b)
  AllShut-without [] c b (h, hs) = hs
  AllShut-without (d ∷ a) c b (h, hs) = (h, AllShut-without a c b hs)

  processed-IsCounted :
      (s : Server G Address Keepalive) (a : List (Connection Address Keepalive))
      (c : Connection Address Keepalive) (b : List (Connection Address Keepalive))
      → s.connections ≡ a ++ c ∷ b
      → IsCounted s
      → IsCounted (record (destroy G s a b) { task_gate = G.leave s.task_gate })
  processed-IsCounted s a c b e i =
      let before = length-append a (c ∷ b) in
      let after = length-append a b in
      let n = tasks s.loops + length (a ++ b) in
      let some_task : G.count s.task_gate ≡ suc n =
        omega (arith, i.entered, ap length e, before, after) in
      record {
        entered = G.count-leave s.task_gate n some_task;
        current = ground (arith, i.current, ap length e, before, after);
        shut = λ h.
            AllShut-without a c b
              (subst AllShut e (i.shut (sym (G.is_closed-leave s.task_gate) ∙ h)));
      }

  pub length-shutdown :
      (cs : List (Connection Address Keepalive)) → length (map (shutdown G) cs) ≡ length cs
  length-shutdown [] = refl
  length-shutdown (c ∷ cs) = ap suc (length-shutdown cs)

  AllShut-shutdown : (cs : List (Connection Address Keepalive)) → AllShut (map (shutdown G) cs)
  AllShut-shutdown [] = tt
  AllShut-shutdown (c ∷ cs) = (refl, AllShut-shutdown cs)

  stop-IsCounted : (s : Server G Address Keepalive) → IsCounted s → IsCounted (stop G s)
  unfolding stop
  stop-IsCounted s i =
      let same = length-shutdown s.connections in
      record {
        entered = omega (arith, i.entered, same, G.count-close s.task_gate);
        current = omega (arith, i.current, same);
        shut = λ h. AllShut-shutdown s.connections;
      }

  pub Step-IsCounted : {s t : Server G Address Keepalive} → Step G s t → IsCounted s → IsCounted t
  Step-IsCounted (sets_handler given) i = record {
    entered = i.entered;
    current = i.current;
    shut = i.shut;
  }
  Step-IsCounted (sets_credentials given) i = record {
    entered = i.entered;
    current = i.current;
    shut = i.shut;
  }
  Step-IsCounted (sets_keepalive params) i = record {
    entered = i.entered;
    current = i.current;
    shut = i.shut;
  }
  Step-IsCounted {s} (listens addr lo creds) i = listen-IsCounted s addr lo creds i
  Step-IsCounted {s} (turns a l b e at) i = turn-IsCounted s a l b e i at
  Step-IsCounted {s} (accepts a l b made ar e at) i =
      moved-IsCounted (serve G s made ar l.tls) a l b (serve-loops s made ar l.tls ∙ e)
        (serve-IsCounted s made ar l.tls i) turning (ap held at)
  Step-IsCounted {s} (accept_fails a l b e at) i = moved-IsCounted s a l b e i turning (ap held at)
  Step-IsCounted {s} (processed a c b e) i = processed-IsCounted s a c b e i
  Step-IsCounted {s} stops i = stop-IsCounted s i

  -- In every state that a server can reach from its start with an empty gate, the gate holds one task
  -- for each accept loop, one more for each `accept` that is under way, and one for each connection;
  -- `current_connections` is the number of connections in the list, modulo 2^64; and once the gate is
  -- closed, every connection in the list has been shut down.
  pub Reach-IsCounted :
      (g : G.State) {s : Server G Address Keepalive}
      → G.count g ≡ 0
      → Reach G (fresh_server G g) s
      → IsCounted s
  Reach-IsCounted g empty here = record { entered = empty; current = omega arith; shut = λ h. tt }
  Reach-IsCounted g empty (next r st) = Step-IsCounted st (Reach-IsCounted g empty r)
