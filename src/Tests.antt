-- ===== src/Tests.antt =====
-- Small databases and inputs, what the operations do on them, and the theorems applied to them.
pub mod Samples
mod QueueTests
mod RunTests
mod PurgeTests
mod WebTests
mod CliTests
mod ConfigTests
mod CaptureTests
mod StreamTests
mod ReportTests
mod DiscoveryTests
mod EndpointTests
mod ClientTests
