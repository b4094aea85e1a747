-- ===== src/Runner.antt =====
-- backend/app/services/runner.py: the parts of a test run.
pub mod Processes
pub mod Steps
pub mod Grouping
pub mod Lines
pub mod Launches
pub mod Capture
pub mod Commands
pub mod CliCapture
