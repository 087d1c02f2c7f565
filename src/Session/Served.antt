-- ===== src/Session/Served.antt =====
-- What a session of src/server.cc does with the commands that a client writes.
use shunya_kv.Prelude.{
  ℕ, suc, ◌≤◌, ◌<◌, ◌≡◌, ◌≢◌, ◌⊎◌, refl, sym, ap, subst, ◌∙◌, inl, inr, true, false, Bool-cases,
  Option, none, some, List, [], ◌∷◌, ◌++◌, map, arith, length, All,
}
use shunya_kv.Prelude.Bytes.{Bytes, codes, same_bytes, same_bytes_refl, same_bytes→≡}
use shunya_kv.Resp.Stream.{max_args, max_bulk}
use shunya_kv.Resp.Writer.{IsDecimal, write_error}
use shunya_kv.Resp.Reader.{Reader, Chunks}
use shunya_kv.Resp.Reader.Moves.{Unread}
use shunya_kv.Resp.Reader.Written.{read_command-write_array_bulk, read_command_closed}
use shunya_kv.Commands.{
  Command, set_command, get_command, quit_command, node_info_command, info_command, command_name,
  command_dispatch, upper,
}
use shunya_kv.Conn.Requests.{wire}
use shunya_kv.Session.{
  Handled, answers, raises, Ended, closed, done, failed, Answer, goes_on, ends, find_handler,
  unknown_command, answered, answer, handle_session,
}

-- A command within the limits of the reader.
abbrev pub IsReadable : List Bytes → Type 0
IsReadable args = (0 < length args) × (length args ≤ max_args) × All (λ a. length a ≤ max_bulk) args

find_handler-none :
    (table : List Command) (name : Bytes)
    → find_handler table name ≡ none
    → All (λ c. name ≢ command_name c) table
unfolding find_handler
find_handler-none [] name f = tt
find_handler-none (c ∷ table) name f = elim (Bool-cases (same_bytes name (command_name c))) [
  | inl t ↦ absurd (ground (arith, f, t))
  | inr t ↦ (
    λ e. absurd (cc (t, sym (same_bytes_refl name) ∙ ap (same_bytes name) e)),
    find_handler-none table name (ground (arith, f, t)),
  )
]

find_handler-some :
    (table : List Command) (name : Bytes) (c : Command)
    → find_handler table name ≡ some c
    → name ≡ command_name c
unfolding find_handler
find_handler-some [] name c f = absurd (cc f)
find_handler-some (d ∷ table) name c f = elim (Bool-cases (same_bytes name (command_name d))) [
  | inl t ↦
      let same : d ≡ c = ground (arith, f, t) in
      same_bytes→≡ name (command_name d) t ∙ ap command_name same
  | inr t ↦ find_handler-some table name c (ground (arith, f, t))
]

in_table :
    (name : Bytes)
    → All (λ c. name ≢ command_name c) command_dispatch
    → (c : Command) → name ≢ command_name c
in_table name h set_command = h.0
in_table name h get_command = h.1.0
in_table name h quit_command = h.1.1.0
in_table name h node_info_command = h.1.1.1.0
in_table name h info_command = h.1.1.1.1.0

-- QUIT is the name of its handler alone.
names_quit :
    (c : Command) (name : Bytes)
    → name ≡ command_name c
    → ((c ≡ quit_command) × (same_bytes name (codes "QUIT") ≡ true))
      ⊎ ((c ≢ quit_command) × (same_bytes name (codes "QUIT") ≡ false))
unfolding command_name same_bytes
names_quit set_command name e = inr (cc, rw e refl)
names_quit get_command name e = inr (cc, rw e refl)
names_quit quit_command name e = inl (refl, rw e refl)
names_quit node_info_command name e = inr (cc, rw e refl)
names_quit info_command name e = inr (cc, rw e refl)

-- What a client is promised: how the commands that it sends are answered, one after the other, and how
-- the session ends. `n` is the node and `out` what was written so far.
module _ {N : Type 0} (handle : N → Command → List Bytes → Handled N) where
  pub data Serves : (n : N) (out : Bytes) → List (List Bytes) → Ended N → Type 0 where
    -- The client has closed.
    all_served :
        {n : N} {out : Bytes} → Serves n out [] (record { node = n; out = out; how = closed })
    unknown :
        {n : N} {out name : Bytes} {args : List Bytes} {cmds : List (List Bytes)} {e : Ended N}
        → ((c : Command) → map upper name ≢ command_name c)
        → Serves n (out ++ codes "-ERR unknown command\r\n") cmds e
        → Serves n out ((name ∷ args) ∷ cmds) e
    handled :
        {n n' : N} {out name reply : Bytes} {args : List Bytes} {cmds : List (List Bytes)}
        {e : Ended N} (c : Command)
        → map upper name ≡ command_name c
        → c ≢ quit_command
        → handle n c (name ∷ args) ≡ answers n' reply
        → Serves n' (out ++ reply) cmds e
        → Serves n out ((name ∷ args) ∷ cmds) e
    -- What is sent behind a QUIT is not read.
    quits :
        {n n' : N} {out name reply : Bytes} {args : List Bytes} {cmds : List (List Bytes)}
        → map upper name ≡ codes "QUIT"
        → handle n quit_command (name ∷ args) ≡ answers n' reply
        → Serves n out ((name ∷ args) ∷ cmds) (record { node = n'; out = out ++ reply; how = done })
    fails_at :
        {n n' : N} {out name reply : Bytes} {args : List Bytes} {cmds : List (List Bytes)}
        (c : Command)
        → map upper name ≡ command_name c
        → handle n c (name ∷ args) ≡ raises n' reply
        → Serves n out
            ((name ∷ args) ∷ cmds)
            (record { node = n'; out = out ++ reply; how = failed })

  -- What an answer to a command promises of the sessions that begin with it.
  abbrev Promised : (n : N) (out name : Bytes) (args : List Bytes) → Answer handle → Type 0
  Promised n out name args (ends e) =
      (cmds : List (List Bytes)) → Serves n out ((name ∷ args) ∷ cmds) e
  Promised n out name args (goes_on n' out') =
      (cmds : List (List Bytes)) (e : Ended N)
      → Serves n' out' cmds e
      → Serves n out ((name ∷ args) ∷ cmds) e

  answered-Promised :
      (n : N) (out name : Bytes) (args : List Bytes) (c : Command) (h : Handled N)
      → map upper name ≡ command_name c
      → handle n c (name ∷ args) ≡ h
      → Promised n out name args
          (answered handle (same_bytes (map upper name) (codes "QUIT")) h out)
  unfolding command_name
  answered-Promised n out name args c (raises n' reply) e h = λ cmds. fails_at c e h
  answered-Promised n out name args c (answers n' reply) e h =
      elim (names_quit c (map upper name) e) [
        | inl (same, q) ↦ rw q (λ cmds.
            quits (e ∙ ap command_name same)
              (subst (λ d. handle n d (name ∷ args) ≡ answers n' reply) same h))
        | inr (other, q) ↦ rw q (λ cmds x rest. handled c e other h rest)
      ]

  answer-Promised :
      (n : N) (out name : Bytes) (args : List Bytes)
      → Promised n out name args (answer handle n (name ∷ args) out)
  unfolding answer write_error
  answer-Promised n out name args = hook (find_handler command_dispatch (map upper name)) refl
    where
      hook :
          (o : Option Command)
          → find_handler command_dispatch (map upper name) ≡ o
          → Promised n out name args (elim o as (λ x. Answer handle) [
            | none ↦ goes_on n (out ++ unknown_command)
            | some c ↦
                answered handle
                  (same_bytes (map upper name) (codes "QUIT"))
                  (handle n c (name ∷ args))
                  out
          ])
      hook none f =
          let missing = find_handler-none command_dispatch (map upper name) f in
          λ cmds e rest. unknown (in_table (map upper name) missing) rest
      hook (some c) f =
          let named = find_handler-some command_dispatch (map upper name) c f in
          answered-Promised n out name args c (handle n c (name ∷ args)) named refl

  -- The result of a session, with what was promised of it.
  abbrev pub Result : (n : N) (out : Bytes) → List (List Bytes) → Option (Ended N) → Type 0
  Result n out cmds result = (e : Ended N) × (result ≡ some e) × Serves n out cmds e

  -- The session goes on behind an answer, or ends with it.
  go_on :
      (n : N) (out name : Bytes) (args : List Bytes) (r : Reader) (input : Chunks)
      (cmds : List (List Bytes)) (a : Answer handle)
      → Promised n out name args a
      → ((n' : N) (out' : Bytes)
          → Result n' out' cmds (handle_session handle (suc (length cmds)) n' r input out'))
      → Result n out ((name ∷ args) ∷ cmds) (elim a [
        | ends e ↦ some e
        | goes_on n' out' ↦ handle_session handle (suc (length cmds)) n' r input out'
      ])
  go_on n out name args r input cmds (ends e) p again = (e, refl, p cmds)
  go_on n out name args r input cmds (goes_on n' out') p again =
      let (e, h, rest) = again n' out' in (e, h, p cmds e rest)

  module _ (to_sstring : ℕ → Bytes) (decimal : IsDecimal to_sstring) where
    -- A client sends commands, each written as an array of bulk strings within the limits of the reader,
    -- and closes; the chunks may end anywhere, and none is empty. The session ends, with fuel for each
    -- command and for the end of the input. It has answered the commands one after the other: a command
    -- whose name, in capitals, is that of no handler with `-ERR unknown command`, and every other one by
    -- its handler, on the node that the handlers before it have left. It has stopped behind the answer to
    -- the first QUIT, or where a handler raised an exception, and otherwise at the end of the input.
    pub handle_session-Serves :
        (cmds : List (List Bytes)) (n : N) (r : Reader) (input : Chunks) (out : Bytes)
        → All IsReadable cmds
        → Unread (wire to_sstring cmds) r input
        → Result n out cmds (handle_session handle (suc (length cmds)) n r input out)
    unfolding handle_session
    handle_session-Serves [] n r input out fits u =
        let (r', input', e) = read_command_closed [] r input (inl u) in
        (_, rw (e, handle_session) refl, all_served)
    handle_session-Serves ([] ∷ cmds) n r input out ((few, _, _), fits) u = absurd (omega arith)
    handle_session-Serves ((name ∷ args) ∷ cmds) n r input out ((few, most, small), fits) u =
        let (r', input', e, u') =
          read_command-write_array_bulk to_sstring decimal (name ∷ args) (wire to_sstring cmds) r
            input few most small u in
        let again =
          λ (n' : N) (out' : Bytes). handle_session-Serves cmds n' r' input' out' fits u' in
        let promised = answer-Promised n out name args in
        rw (e, handle_session)
          (go_on n out name args r' input' cmds (answer handle n (name ∷ args) out) promised again)
