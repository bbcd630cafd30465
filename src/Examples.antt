-- ===== src/Examples.antt =====
-- Concrete runs of the program: theorems applied to them, and tests.
pub mod Toys
pub mod Schedules
pub mod Jobs
pub mod Loops
pub mod Tables
pub mod Nightly
pub mod Queries
pub mod Answers
pub mod Texts
pub mod Providers
pub mod Goroutines
pub mod Requests
pub mod Startup
pub mod Transport
pub mod EndToEnd
pub mod Shutdown
pub mod Serving
