-- ===== src/Database.antt =====
-- internal/database: the Postgres tables and the repositories over them.
pub mod Tables
pub mod Chains
pub mod Config
pub mod Buffer
pub mod Accounts
