-- ===== src/Conn/Requests.antt =====
-- src/conn/resp_handler.cc: the connection whose hook is the RESP stream parser, and the requests that
-- a peer sends it with the writer of src/resp/resp_writer.cc, however the network cuts their bytes.
pub mod Sync
pub mod Handled
mod Tests
use shunya_kv.Prelude.{
  ℕ, suc, ◌+◌, ◌-◌, ◌^◌, ◌≤◌, ◌<◌, ◌≡◌, ◌≢◌, ◌⊎◌, refl, sym, ap, ◌∙◌, inl, inr, Option, none, some,
  List, [], ◌∷◌, ◌++◌, append-nil, append_assoc, arith, length, length-append, drop, drop-append_le,
  All,
}
use shunya_kv.Prelude.Bytes.{Bytes}
use shunya_kv.Resp.{ParsedRequest}
use shunya_kv.Resp.Writer.{IsDecimal, write_array_bulk}
use shunya_kv.Resp.Stream.{
  Processor, fresh, need_star, Outcome, returns, out_of_range, try_extract_request, max_args,
  max_bulk,
}
use shunya_kv.Conn.{Extracted, extracts, throws}

-- The outcome of `RespStreamProcessor::try_extract_request`, as the hook gives it.
abbrev pub as_extracted : Option Outcome → Extracted Processor
as_extracted none = throws
as_extracted (some out_of_range) = throws
as_extracted (some (returns p buf r)) = extracts p buf r

-- `RespHandler::try_extract_request`.
unfoldable pub extract_resp : Processor → Bytes → Extracted Processor
extract_resp p buf = as_extracted (try_extract_request p buf)

-- A request within the limits of the parser: 1 to 1024 arguments of at most 64 MiB, and a frame whose
-- offsets stay below 2^32, with what the parser may keep of the frames before.
pub record Fits (to_sstring : ℕ → Bytes) (args : List Bytes) : Type 0 where
  pub some_args : 0 < length args
  pub few : length args ≤ max_args
  pub small : All (λ a. length a ≤ max_bulk) args
  pub short : 4096 + length (write_array_bulk to_sstring [] args) < 2 ^ 32

-- What the peer sends, and the requests that it means.
abbrev pub wire : (to_sstring : ℕ → Bytes) → List (List Bytes) → Bytes
wire to_sstring [] = []
wire to_sstring (args ∷ more) = write_array_bulk to_sstring [] args ++ wire to_sstring more

abbrev pub request : (to_sstring : ℕ → Bytes) → List Bytes → ParsedRequest
request to_sstring args = record { frame = write_array_bulk to_sstring [] args; argv = args }

abbrev pub requests : (to_sstring : ℕ → Bytes) → List (List Bytes) → List ParsedRequest
requests to_sstring [] = []
requests to_sstring (args ∷ more) = request to_sstring args ∷ requests to_sstring more
