-- ===== src/Storage/Database.antt =====
-- internal/storage/database.go over tables of a database, which gorm reaches.
pub mod Table
pub mod Models
pub mod Blocks
pub mod Transactions
pub mod Records
pub mod Implementation
pub mod Rows
pub mod Reads
pub mod Deletions
pub mod Batches
pub mod Lists
mod Tests
