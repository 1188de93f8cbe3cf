-- ===== src/Parser.antt =====
-- internal/parser: decoded JSON, the parsers behind one interface, and their manager.
pub mod Json
pub mod Base
pub mod EvmParser
pub mod OtherParsers
pub mod Manager
