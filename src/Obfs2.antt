-- ===== src/Obfs2.antt =====
-- The obfuscated2 transport of src/net/net-obfs2-parse.c: the handshake header and the frames.
pub mod Frame
pub mod Header
mod Tests
