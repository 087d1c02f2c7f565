-- ===== src/Resp.antt =====
-- The RESP wire protocol: src/resp and the request type of include/conn/socket_handler.hh.
pub mod Stream
pub mod Writer
pub mod Chars
pub mod Frame
pub mod Reader
use shunya_kv.Prelude.{List}
use shunya_kv.Prelude.Bytes.{Bytes}

-- A request: the bytes of its frame, and its arguments. An error reply travels as a frame with no
-- arguments.
pub record ParsedRequest : Type 0 where
  pub frame : Bytes
  pub argv : List Bytes
