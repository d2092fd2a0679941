-- ===== src/Store.antt =====
-- oiajudge/pkg/store/store.go: errors, transactions and how they are closed.
pub mod Errors
pub mod Action
pub mod Session
pub mod Migrations
pub mod Embedded
pub mod Listen
mod Tests
