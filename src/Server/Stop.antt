-- ===== src/Server/Stop.antt =====
-- `socket_server::stop` of src/conn/socket_server.cc: what is still to come to its end behind it, and
-- that nothing is added.
use shunya_kv.Prelude.{
  ℕ, ◌+◌, ◌≤◌, ◌≡◌, inl, inr, sym, ap, subst, ◌∙◌, Bool, true, Bool-cases, not, ◌&&◌, List, ◌∷◌,
  ◌++◌, append-nil, length, length-append, arith,
}
use shunya_kv.Server.Tasks.{Gate}
use shunya_kv.Server.{
  LoopAt, turning, ended, Loop, AcceptResult, Server, do_accepts, listen, turn, serve, stop, Step,
  sets_handler, sets_credentials, sets_keepalive, listens, turns, accepts, accept_fails, processed,
  stops, Reach, here, next,
}
use shunya_kv.Server.Counts.{held, tasks, tasks-moved, length-shutdown, serve-loops}

module _ (G : Gate) {Address Keepalive : Type 0} where
  abbrev pub IsStopped : Server G Address Keepalive → Type 0
  IsStopped s = G.is_closed s.task_gate ≡ true

  -- From `s` to `t` nothing is added.
  pub record Shrinks (s t : Server G Address Keepalive) : Type 0 where
    pub still : IsStopped t
    pub connections : length t.connections ≤ length s.connections
    pub loops : tasks t.loops ≤ tasks s.loops

  do_accepts_stopped :
      (s : Server G Address Keepalive) (which : ℕ) (tls : Bool)
      → IsStopped s
      → do_accepts G s which tls ≡ s
  unfolding do_accepts
  do_accepts_stopped s which tls c = rw (G.enter_closed s.task_gate c, do_accepts)

  pub turn_stopped :
      (s : Server G Address Keepalive) (a : List Loop) (l : Loop) (b : List Loop)
      → IsStopped s
      → turn G s a l b
        ≡ record s { task_gate = G.leave s.task_gate; loops = a ++ record l { at = ended } ∷ b }
  unfolding turn
  turn_stopped s a l b c = rw (G.enter_closed s.task_gate c, turn)

  -- A connection that is accepted now is not processed and does not stay.
  serve-Shrinks :
      (s : Server G Address Keepalive) (made : Bool) (ar : AcceptResult Address) (tls : Bool)
      → IsStopped s
      → Shrinks s (serve G s made ar tls)
  unfolding serve
  serve-Shrinks s made ar tls c = elim (Bool-cases (not (s.has_handler && made))) [
    | inl t ↦ rw t (record { still = c; connections = omega arith; loops = omega arith })
    | inr f ↦
        let e = G.enter_closed s.task_gate c in
        rw (f, e, serve)
          (record {
            still = c;
            connections = omega (arith, ap length (append-nil s.connections));
            loops = omega arith;
          })
  ]

  moved-Shrinks :
      (s : Server G Address Keepalive) (a : List Loop) (l : Loop) (b : List Loop) (w : LoopAt)
      → s.loops ≡ a ++ l ∷ b
      → held l.at ≡ held w + 1
      → IsStopped s
      → Shrinks s
          (record s { task_gate = G.leave s.task_gate; loops = a ++ record l { at = w } ∷ b })
  moved-Shrinks s a l b w e h c = record {
    still = G.is_closed-leave s.task_gate ∙ c;
    connections = omega arith;
    loops = omega (arith, tasks-moved s.loops a l b w e, h);
  }

  Shrinks-trans : {s t u : Server G Address Keepalive} → Shrinks s t → Shrinks t u → Shrinks s u
  Shrinks-trans x y = record {
    still = y.still;
    connections = omega (arith, x.connections, y.connections);
    loops = omega (arith, x.loops, y.loops);
  }

  pub Step-Shrinks : {s t : Server G Address Keepalive} → Step G s t → IsStopped s → Shrinks s t
  unfolding listen stop
  Step-Shrinks (sets_handler given) c = record {
    still = c;
    connections = omega arith;
    loops = omega arith;
  }
  Step-Shrinks (sets_credentials given) c = record {
    still = c;
    connections = omega arith;
    loops = omega arith;
  }
  Step-Shrinks (sets_keepalive params) c = record {
    still = c;
    connections = omega arith;
    loops = omega arith;
  }
  Step-Shrinks {s} (listens addr lo creds) c =
      subst (Shrinks s) (sym (do_accepts_stopped _ (length s.listeners) creds c))
        (record { still = c; connections = omega arith; loops = omega arith })
  Step-Shrinks {s} (turns a l b e at) c =
      rw (turn_stopped s a l b c) (moved-Shrinks s a l b ended e (ap held at) c)
  Step-Shrinks {s} (accepts a l b made ar e at) c =
      let served = serve-Shrinks s made ar l.tls c in
      Shrinks-trans served (
        moved-Shrinks (serve G s made ar l.tls) a l b turning (serve-loops G s made ar l.tls ∙ e)
          (ap held at) served.still)
  Step-Shrinks {s} (accept_fails a l b e at) c = moved-Shrinks s a l b turning e (ap held at) c
  Step-Shrinks {s} (processed a d b e) c = record {
    still = G.is_closed-leave s.task_gate ∙ c;
    connections = omega (arith, ap length e, length-append a (d ∷ b), length-append a b);
    loops = omega arith;
  }
  Step-Shrinks {s} stops c = record {
    still = G.is_closed-close s.task_gate;
    connections = omega (arith, length-shutdown G s.connections);
    loops = omega arith;
  }

  -- Once `stop` has been called, whatever happens afterwards: the gate stays closed, no connection is
  -- added to the list, also none that was accepted before and comes to its turn only now, and the
  -- accept loops are inside the gate no more often than they were.
  pub Reach-Shrinks : {s t : Server G Address Keepalive} → IsStopped s → Reach G s t → Shrinks s t
  Reach-Shrinks c here = record { still = c; connections = omega arith; loops = omega arith }
  Reach-Shrinks c (next r st) =
      let before = Reach-Shrinks c r in Shrinks-trans before (Step-Shrinks st before.still)
