-- ===== src/Http.antt =====
-- projects/nanosrv/http.cpp: requests and responses on a connection. A message is parsed from the
-- bytes that are buffered; what follows it in the buffer is not looked at.
pub mod Lines
pub mod Message
pub mod Serve
pub mod Lengths
pub mod Chunks
pub mod Heads
pub mod Accepted
mod Examples
