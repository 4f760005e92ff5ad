-- ===== src/Scanner.antt =====
-- internal/scanner: from blocks to deposits in the buffer.
pub mod Node
pub mod Decoder
pub mod Log
pub mod Trace
pub mod Loop
pub mod Deposits
