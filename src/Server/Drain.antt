-- ===== src/Server/Drain.antt =====
-- What `socket_server::stop` of src/conn/socket_server.cc waits for: the future of the gate.
use shunya_kv.Prelude.{
  ℕ, zero, suc, ◌<◌, ◌≡◌, ◌≢◌, ◌⊎◌, ◌↔◌, nil_of_length, inl, inr, refl, sym, ap, subst, ◌∙◌, true,
  List, [], ◌∷◌, ◌++◌, length, All, arith,
}
use shunya_kv.Server.Tasks.{Gate}
use shunya_kv.Server.{
  LoopAt, turning, accepting, ended, Loop, Server, fresh_server, turn, accept_over, turns,
  accept_fails, Reach, next,
}
use shunya_kv.Server.Counts.{held, tasks, tasks-moved, IsCounted, Reach-IsCounted}
use shunya_kv.Server.Stop.{IsStopped, turn_stopped}
use shunya_kv.Server.Aborted.{is_aborted_at, Fit, Reach-HasListeners, All-places-middle, places}

-- A loop that has not ended.
abbrev Running : List Loop → Type 0
Running ls =
    (a : List Loop) × (l : Loop) × (b : List Loop) × (ls ≡ a ++ l ∷ b)
    × ((l.at ≡ turning) ⊎ (l.at ≡ accepting))

place_of : (w : LoopAt) → (w ≡ ended) ⊎ ((w ≡ turning) ⊎ (w ≡ accepting))
place_of turning = inr (inl refl)
place_of accepting = inr (inr refl)
place_of ended = inl refl

abbrev pub AllEnded : List Loop → Type 0
AllEnded ls = All (λ l. l.at ≡ ended) ls

search_loops : (ls : List Loop) → AllEnded ls ⊎ Running ls
search_loops [] = inl tt
search_loops (m ∷ ls) = elim (place_of m.at) [
  | inr h ↦ inr ([], m, ls, refl, h)
  | inl e ↦ elim (search_loops ls) [
    | inl es ↦ inl (e, es)
    | inr (a, l, b, split, at) ↦ inr (m ∷ a, l, b, ap (◌∷◌ m) split, at)
  ]
]

tasks-AllEnded : (ls : List Loop) → AllEnded ls → tasks ls ≡ 0
tasks-AllEnded [] h = refl
tasks-AllEnded (l ∷ ls) (e, h) = omega (arith, tasks-AllEnded ls h, ap held e)

module _ (G : Gate) {Address Keepalive : Type 0} where
  -- What the accept loops do by themselves behind `stop`: they turn, and an `accept` whose listener was
  -- aborted is over. No connection does anything, and no `accept` ends for another reason.
  pub data Winds (s : Server G Address Keepalive) : Server G Address Keepalive → Type 0 where
    stays : Winds s s
    turns_on :
        {t : Server G Address Keepalive} (a : List Loop) (l : Loop) (b : List Loop)
        → Winds s t
        → t.loops ≡ a ++ l ∷ b
        → l.at ≡ turning
        → Winds s (turn G t a l b)
    is_over :
        {t : Server G Address Keepalive} (a : List Loop) (l : Loop) (b : List Loop)
        → Winds s t
        → t.loops ≡ a ++ l ∷ b
        → l.at ≡ accepting
        → is_aborted_at t.listeners l.which ≡ true
        → Winds s (accept_over G t a l b)

  -- These are steps of the server.
  Winds-Reach : {r s t : Server G Address Keepalive} → Winds s t → Reach G r s → Reach G r t
  Winds-Reach stays run = run
  Winds-Reach (turns_on a l b w e at) run = next (Winds-Reach w run) (turns a l b e at)
  Winds-Reach (is_over a l b w e at gone) run = next (Winds-Reach w run) (accept_fails a l b e at)

  -- A state nearer to the end of the loops, with the same connections.
  abbrev Nearer : (r s : Server G Address Keepalive) → Type 0
  Nearer r s =
      (t : Server G Address Keepalive) × Winds r t
      × (tasks t.loops < tasks s.loops)
      × IsStopped G t
      × (t.connections ≡ s.connections)

  module _ (g : G.State) {r : Server G Address Keepalive} (run : Reach G (fresh_server G g) r) where
    loop_step :
        (s : Server G Address Keepalive) (a : List Loop) (l : Loop) (b : List Loop)
        → Winds r s
        → IsStopped G s
        → s.loops ≡ a ++ l ∷ b
        → ((l.at ≡ turning) ⊎ (l.at ≡ accepting))
        → Nearer r s
    loop_step s a l b w c e (inl at) =
        let same = turn_stopped G s a l b c in
        (
          turn G s a l b,
          turns_on a l b w e at,
          subst (λ t. tasks t.loops < tasks s.loops) (sym same)
              (omega (arith, tasks-moved s.loops a l b ended e, ap held at)),
          subst (IsStopped G) (sym same) (G.is_closed-leave s.task_gate ∙ c),
          ap (λ t. t.connections) same,
        )
    loop_step s a l b w c e (inr at) =
        let gone = Fit.aborted (Reach-HasListeners G g (Winds-Reach w run)) c in
        let this =
          All-places-middle _ a l b
            (subst (λ ls. All (λ n. is_aborted_at s.listeners n ≡ true) (places ls)) e gone) in
        (
          accept_over G s a l b,
          is_over a l b w e at this,
          omega (arith, tasks-moved s.loops a l b turning e, ap held at),
          G.is_closed-leave s.task_gate ∙ c,
          refl,
        )

    wind :
        (fuel : ℕ) (s : Server G Address Keepalive)
        → tasks s.loops < fuel
        → Winds r s
        → IsStopped G s
        → (t : Server G Address Keepalive) × Winds r t
          × AllEnded t.loops
          × (t.connections ≡ s.connections)
    wind zero s room w c = absurd (omega arith)
    wind (suc fuel) s room w c = elim (search_loops s.loops) [
      | inl done ↦ (s, w, done, refl)
      | inr (a, l, b, e, at) ↦
          let (t, w', less, still, same) = loop_step s a l b w c e at in
          let (u, w'', done, same') = wind fuel t (omega (arith, less)) w' still in
          (u, w'', done, same' ∙ same)
    ]

  not_empty :
      {s : Server G Address Keepalive} (a : List Loop) (l : Loop) (b : List Loop)
      → s.loops ≡ a ++ l ∷ b
      → ((l.at ≡ turning) ⊎ (l.at ≡ accepting))
      → IsCounted G s
      → G.count s.task_gate ≢ 0
  not_empty {s} a l b e (inl at) i h =
      omega (arith, i.entered, h, tasks-moved s.loops a l b ended e, ap held at)
  not_empty {s} a l b e (inr at) i h =
      omega (arith, i.entered, h, tasks-moved s.loops a l b ended e, ap held at)

  module _ (g : G.State) {s : Server G Address Keepalive} (empty : G.count g ≡ 0)
      (run : Reach G (fresh_server G g) s) where
    -- In a state that a server can reach from its start with an empty gate, the gate is empty exactly
    -- when every accept loop has ended and no connection is left in the list.
    pub empty_gate : (G.count s.task_gate ≡ 0) ↔ (AllEnded s.loops × (s.connections ≡ []))
    empty_gate =
        let i = Reach-IsCounted G g empty run in
        (
          λ h. elim (search_loops s.loops) [
            | inr (a, l, b, e, at) ↦ absurd (not_empty a l b e at i h)
            | inl done ↦ (done, nil_of_length s.connections (omega (arith, i.entered, h)))
          ],
          λ (done, none_left).
              omega (arith, i.entered, tasks-AllEnded s.loops done, ap length none_left),
        )

    -- From every state behind a `stop` that a server can reach from its start with an empty gate, the
    -- accept loops come to their ends by their own turns and by accepts whose listener `stop` has aborted,
    -- while no connection ends. Then the gate holds one task for each connection in the list and no
    -- other: the future of `stop` waits for those connections whose `process` is not over, and for
    -- nothing else.
    pub stop_waits :
        IsStopped G s
        → (t : Server G Address Keepalive) × Winds s t
          × AllEnded t.loops
          × (t.connections ≡ s.connections)
          × (G.count t.task_gate ≡ length s.connections)
    stop_waits c =
        let (t, w, done, same) = wind g run (suc (tasks s.loops)) s (omega arith) stays c in
        let i = Reach-IsCounted G g empty (Winds-Reach w run) in
        (t, w, done, same, omega (arith, i.entered, tasks-AllEnded t.loops done, ap length same))
