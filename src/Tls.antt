-- ===== src/Tls.antt =====
-- src/net/net-tls-parse.c: what the fake-TLS front reads of a ServerHello and of a ClientHello.
-- A buffer is the list of its bytes, and `len` is what the caller passes for its length. Positions
-- and lengths are `int` in C; they stay within 2 ^ 17 of the buffer's length, so they are plain
-- numbers here. A failure is `reject`: what the source has written through its out parameters by
-- then is left out, since its callers look at them after a success only.
mod Read
pub mod Hello
pub mod Sni
pub mod Ciphers
pub mod Mlkem
mod Tests
