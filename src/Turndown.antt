-- ===== src/Turndown.antt =====
-- pkg/turndown: the schedule and its store, the job scheduler, and the turndown scheduler above them.
pub mod Time
pub mod Schedule
pub mod Store
pub mod Request
pub mod Jobs
pub mod Manager
pub mod Start
pub mod Scheduler
pub mod Controller
pub mod Endpoints
