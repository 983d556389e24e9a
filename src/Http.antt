-- ===== src/Http.antt =====
-- The HTTP request parser of src/net/net-http-parse.c: a state machine over the bytes of a
-- connection, called again with the bytes behind those it consumed.
pub mod Query
pub mod Words
pub mod Lines
pub mod Parser
pub mod Sound
pub mod Total
mod Tests
