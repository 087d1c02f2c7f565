-- ===== src/Lib.antt =====
-- shunya-kv, a sharded in-memory key-value store with a RESP interface, one event loop per shard.
--
-- A client's bytes come to a connection's stream parser (src/resp/resp_stream_processor.cc), which
-- cuts them into requests. A request is looked up in a command table, its key is hashed to the shard
-- that owns it (include/hash.hh), and that shard's store (src/kv_store.cc) carries it out. The store
-- keeps a map from keys to cache entries (include/ttl/entry.hh), which it draws from an entry pool
-- (src/pool/object_pool.cc). A new entry begins on probation, in a list that a reaper empties from the
-- front when too many have gathered; an entry that is used again is promoted to the sanctuary, in
-- whose list the sieve policy (src/eviction/sieve_policy.cc) chooses the entries to evict when the
-- pool runs full. Replies are written by src/resp/resp_writer.cc. A node announces to its clients which
-- hashes belong to which shard (src/node_info_helpers.cc).
--
-- Prelude holds the shared names and tests, lists over the native numbers (Lists), intrusive lists
-- (Links) and byte strings (Bytes).
-- Routing is include/hash.hh, include/cmd_node_info.hh and src/node_info_helpers.cc: `shard_for`,
-- `compute_hash_ranges` and `compute_hash`. The hash function is a parameter.
-- Resp.Stream is `RespStreamProcessor`: each case of the switch in `try_extract_request` is a
-- function `step_...`, `step` is one round of its loop, and the buffer is passed along. A buffer and
-- its state are the parser's whole state.
-- Resp.Frame is `parse_frame_length` and `parse_command_from_frame` of src/resp/resp_parser.cc, and
-- Resp.Reader its class `Reader`: an operation takes the reader and the chunks that the stream will
-- give, and gives them back with its result, or fails. Resp.Chars is `std::from_chars`.
-- Resp.Writer is src/resp/resp_writer.cc: each writer appends to the bytes sent so far. The decimal
-- printer of the library is a parameter, of which only is used that it prints decimal digits that
-- read back as the number.
-- Ttl is `ttl::Entry`, Ttl.Policy is include/ttl/ttl_policy.hh.
-- Eviction is `SievePolicy`: an entry is a number, its fields are in a memory, and it is linked while
-- its number stands in the list; an iterator is the number it points to, or `none` at the end.
-- Pool is `CacheEntryPool`, with the memory of the entries and the sieve policy that it points to; the
-- eviction callback is a parameter.
-- Store is `store`: `Shelf` is the map with the counters, `evict_keys` is the eviction callback that
-- `start` installs, and `put` is what `set` and `set_with_ttl` have in common. Store.Expiry is
-- `evict_ttl_keys` with its heap, into which the source never puts a node. Store.Ownership, Store.Taken
-- and Store.Put say which entries the pool and the map own, Store.Places and Store.Placement in which
-- list an entry stands; Store.Runs is about sequences of calls.
-- Store.Start is the start and the stop of `store`, with the sizing and the filling of the pool in
-- Pool.Init; Store.Service is the `service` of src/router.cc around it, which a first call starts.
-- Commands is src/cmd_set.cc, src/cmd_get.cc, src/cmd_quit.cc, src/commands.cc, the service of
-- src/router.cc and the choice of a handler in `handle_request`. A node is one service per shard, and
-- `run_set` and `run_get` go to the service of the shard that owns the key.
-- Commands.NodeInfo is src/cmd_node_info.cc: an answer is a value that stands for its JSON text.
-- Commands.Info is src/cmd_info.cc, from the statistics of the shards on.
-- Conn is `PipelinedSocketHandler` of src/conn/socket_handler.cc: a step is what the read loop or the
-- write loop does between two suspension points, for any hook `try_extract_request`. The bytes read,
-- the replies and the failures are what a step is given. Conn.Line is the hook that cuts lines.
-- Conn.Requests puts the two together: the hook is the stream parser, as in src/conn/resp_handler.cc, and
-- the peer sends arrays of bulk strings.
-- Conn.Process is `PipelinedSocketHandler::process`: the greeting, the two loops, and the closing of the streams.
-- Session is `tcp_server::handle_session` of src/server.cc, with the handlers as a parameter and a fuel
-- of one round for each command and one for the end of the input.
-- Server is `socket_server` of src/conn/socket_server.cc with the life of a `connection`: a step is what
-- an accept loop, a connection or the owner does between two suspension points. The library's gate,
-- which counts the tasks that `stop` waits for, is the parameter `Gate` with its documented laws.
-- Config is src/config_loader.cc: `setting` is what a line comes to and `apply` the chain of its keys.
-- The reader of floating-point numbers and the opening of files are parameters.
-- Metrics is the latency histogram of include/router_metrics.hh; the rank that a quantile asks for,
-- which is computed in floating point, is an argument.
--
-- Fuel: `extract_loop` is given rounds for the unread bytes and for the steps of the current argument,
-- since each round that goes on reads a byte or takes a step. A sweep of `evict` is given as many
-- rounds as the list has entries, since each round moves the hand on and the hand stops at the end.
-- The reaper's rounds are its budget. The highest bit of a latency is found by 64 halvings, which are
-- enough for 64 bits.
--
-- Not modelled: a call runs to its end as one step, so what another call may do at a `maybe_yield` or
-- another suspension is left out, but for the loops of a connection. Allocation failures and logging are
-- left out; the percentages of the pool and the comparison with the soft trigger, which are in floating
-- point, are parameters. The counters of 64 bits and the integers of the parser wrap as in the source. The
-- orchestrator, the metrics logger and the start-up code are not modelled: they wire the network
-- library together, and `http_date` only prints the time.
pub mod Prelude
pub mod Routing
pub mod Resp
pub mod Ttl
pub mod Eviction
pub mod Pool
pub mod Server
pub mod Session
pub mod Store
pub mod Commands
pub mod Metrics
pub mod Conn
pub mod Config
