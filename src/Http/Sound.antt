-- ===== src/Http/Sound.antt =====
-- The soundness of the cases of the switch of src/net/net-http-parse.c.
pub mod Base
pub mod Word
pub mod Space
pub mod Name
pub mod Line
