-- ===== src/Judge.antt =====
-- oiajudge/pkg/oiajudge: the judge server.
pub mod Tables
pub mod Users
pub mod Submissions
pub mod Tasks
pub mod Scores
pub mod Updater
pub mod Server
pub mod Settings
pub mod Events
pub mod Api
pub mod Http
pub mod Routes
pub mod Tests
