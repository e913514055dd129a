-- ===== src/Vshard/Parser.antt =====
-- internal/vshard/parser.go: the replies of Tarantool, read into the records of this module.
pub mod Value
pub mod Router
pub mod Storage
pub mod Replication
pub mod RoundTrip
pub mod Bounds
