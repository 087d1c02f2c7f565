-- ===== src/Commands.antt =====
-- src/cmd_set.cc, src/cmd_get.cc, src/cmd_quit.cc, src/commands.cc, src/router.cc and the dispatch in
-- src/resp/resp_stream_processor.cc. A node is one service per shard; a call forwarded to another shard
-- is carried out there before the reply is written.
pub mod Names
pub mod Calls
pub mod NodeInfo
pub mod Info
mod Tests
use shunya_kv.Prelude.{
  ℕ, zero, suc, ◌+◌, ◌-◌, ◌*◌, ◌%◌, ◌^◌, Bool, true, false, not, ◌&&◌, ◌||◌, Option, none, some,
  List, [], ◌∷◌, ◌++◌, leb, ltb, ◌==◌, if◌then◌else◌, length,
}
use shunya_kv.Prelude.Bytes.{Bytes, codes}
use shunya_kv.Routing.{shard_for}
use shunya_kv.Resp.{ParsedRequest}
use shunya_kv.Resp.Chars.{from_chars}
use shunya_kv.Resp.Writer.{write_simple, write_error, write_bulk, write_null}
use shunya_kv.Pool.{inc64}
use shunya_kv.Store.{Store, get, set, set_with_ttl}

-- `ca - 'a' + 'A'` on a lower-case letter.
unfoldable pub upper : ℕ → ℕ
upper c = if leb 97 c && leb c 122 then c - 97 + 65 else c

unfoldable pub same_letters : Bytes → Bytes → Bool
same_letters [] b = true
same_letters (c ∷ a) [] = false
same_letters (c ∷ a) (d ∷ b) = if not (upper c == upper d) then false else same_letters a b

-- `ieq` and `ascii_ieq`: equal sizes, and then each pair of letters in turn.
unfoldable pub ieq : Bytes → Bytes → Bool
ieq a b = if not (length a == length b) then false else same_letters a b

-- The handlers of `command_dispatch`.
pub data Command : Type 0 where
  set_command get_command quit_command node_info_command info_command : Command

unfoldable pub command_name : Command → Bytes
command_name set_command = codes "SET"
command_name get_command = codes "GET"
command_name quit_command = codes "QUIT"
command_name node_info_command = codes "NODE_INFO"
command_name info_command = codes "INFO"

abbrev pub command_dispatch : List Command
command_dispatch = set_command ∷ get_command ∷ quit_command ∷ node_info_command ∷ info_command ∷ []

-- `std::find_if` over a table.
unfoldable pub find_command : List Command → Bytes → Option Command
find_command [] name = none
find_command (c ∷ table) name =
    if ieq name (command_name c) then some c else find_command table name

-- What `handle_request` does with a request: it replies at once, or calls a handler.
pub data Dispatch : Type 0 where
  reply : Bytes → Dispatch
  call : Command → Dispatch

abbrev pub error_frame : Bytes → Bool
error_frame [] = false
error_frame (c ∷ s) = c == 45

abbrev pub dispatch_name : Option Command → Dispatch
dispatch_name none = reply (codes "-ERR unknown command\r\n")
dispatch_name (some c) = call c

unfoldable pub handle_request : ParsedRequest → Dispatch
handle_request r = elim r.argv [
  | [] ↦ if error_frame r.frame then reply r.frame else reply (codes "-ERR empty command\r\n")
  | name ∷ args ↦ dispatch_name (find_command command_dispatch name)
]

-- The checks of `handle_set`: an error message, or the key, the value and the TTL, 0 for none.
pub data SetArgs : Type 0 where
  rejects : Bytes → SetArgs
  accepts : (key value : Bytes) (ttl : ℕ) → SetArgs

unfoldable pub check_ttl : (key value text : Bytes) → SetArgs
check_ttl key value text = elim (from_chars text) [
  | none ↦ rejects (codes "ERR invalid expire time")
  | some r ↦
      if not (length r.1 == 0) || r.0 == 0
      then rejects (codes "ERR invalid expire time")
      else accepts key value r.0
]

unfoldable pub check_set : List Bytes → SetArgs
check_set (c ∷ key ∷ value ∷ options) =
    if length key == 0 then rejects (codes "ERR empty key") else elim options [
      | [] ↦ accepts key value 0
      | (ex ∷ []) ↦ rejects (codes "ERR syntax error")
      | (ex ∷ text ∷ []) ↦
          if not (ieq ex (codes "EX"))
          then rejects (codes "ERR syntax error (expected EX)")
          else check_ttl key value text
      | (ex ∷ text ∷ x ∷ more) ↦ rejects (codes "ERR syntax error")
    ]
check_set cmd = rejects (codes "ERR wrong number of arguments for 'SET'")

pub data GetArgs : Type 0 where
  refuses : Bytes → GetArgs
  asks : (key : Bytes) → GetArgs

unfoldable pub check_get : List Bytes → GetArgs
check_get (c ∷ key ∷ []) = if length key == 0 then refuses (codes "ERR empty key") else asks key
check_get cmd = refuses (codes "ERR wrong number of arguments for 'GET'")

-- `service` with its counters; it has been started.
pub record Service : Type 0 where
  pub store : Store
  pub get_total : ℕ
  pub get_forwarded : ℕ
  pub cache_miss : ℕ

abbrev pub Node : Type 0
Node = ℕ → Service

abbrev pub on_shard : Node → ℕ → Service → Node
on_shard n i s j = if i == j then s else n j

abbrev pub with_store : Node → ℕ → Store → Node
with_store n i st = on_shard n i (record (n i) { store = st })

pub record_get : Service → (forwarded : Bool) → Service
record_get s forwarded = record s {
  get_total = inc64 s.get_total;
  get_forwarded = if forwarded then inc64 s.get_forwarded else s.get_forwarded;
}

pub record_cache_miss_count : Service → Service
record_cache_miss_count s = record s { cache_miss = inc64 s.cache_miss }

-- Parameters: the memory check's comparison, the hash, the decimal printer, the number of shards and
-- the first data shard; and for a call the clock and the shard of the connection.
module _ (over_soft_trigger : (used_slots total_slots : ℕ) → Bool) (fnv1a64 : Bytes → ℕ)
    (to_sstring : ℕ → Bytes) (smp first : ℕ) where
  -- The owner's `set_key_value`.
  abbrev pub set_key_value : Store → (now_s : ℕ) → (key value : Bytes) → (ttl : ℕ) → Store × Bool
  set_key_value st now_s key value ttl =
      if ttl == 0
      then set over_soft_trigger st now_s key value
      else set_with_ttl over_soft_trigger st now_s key value ttl

  unfoldable pub run_set : Node → (now_s : ℕ) → (key value : Bytes) → (ttl : ℕ) → Node × Bytes
  run_set n now_s key value ttl =
      let sid = shard_for fnv1a64 smp first key in
      let (st, ok) = set_key_value (n sid).store now_s key value ttl in
      (
        with_store n sid st,
        if ok then write_simple [] (codes "OK") else write_error [] (codes "NOT STORED"),
      )

  unfoldable pub handle_set : Node → (now_s : ℕ) → List Bytes → Node × Bytes
  handle_set n now_s cmd = elim (check_set cmd) [
    | rejects message ↦ (n, write_error [] message)
    | accepts key value ttl ↦ run_set n now_s key value ttl
  ]

  abbrev pub get_reply : Node → (this_shard : ℕ) → Option Bytes → Node × Bytes
  get_reply n this_shard none =
      (on_shard n this_shard (record_cache_miss_count (n this_shard)), write_null [])
  get_reply n this_shard (some value) = (n, write_bulk to_sstring [] value)

  unfoldable pub run_get : Node → (this_shard now_s : ℕ) → Bytes → Node × Bytes
  run_get n this_shard now_s key =
      let sid = shard_for fnv1a64 smp first key in
      let n1 = on_shard n this_shard (record_get (n this_shard) (not (sid == this_shard))) in
      let (st, value) = get (n1 sid).store now_s key in
      get_reply (with_store n1 sid st) this_shard value

  unfoldable pub handle_get : Node → (this_shard now_s : ℕ) → List Bytes → Node × Bytes
  handle_get n this_shard now_s cmd = elim (check_get cmd) [
    | refuses message ↦ (n, write_error [] message)
    | asks key ↦ run_get n this_shard now_s key
  ]

abbrev pub handle_quit : List Bytes → Bytes
handle_quit cmd = write_simple [] (codes "BYE")
