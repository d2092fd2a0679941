-- ===== src/Cms.antt =====
-- oiajudge/pkg/cmsbridge: the contest system's database as the bridge reads and writes it.
pub mod Tables
pub mod Platform
pub mod Queue
pub mod Channel
pub mod Users
pub mod Objects
pub mod Scoring
pub mod Submissions
pub mod Report
pub mod Tasks
pub mod Impl
pub mod Files
pub mod Sent
pub mod Arrival
pub mod Polite
pub mod Deleted
pub mod Calm
pub mod System
pub mod Tests
