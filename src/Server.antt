-- ===== src/Server.antt =====
-- examples/stress_server.py: the packages on disk, `JobRunner`, and the HTTP handler with its counters.
pub mod Packages
pub mod Utf8
pub mod Jobs
pub mod Handling
