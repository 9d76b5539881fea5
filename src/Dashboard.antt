-- ===== src/Dashboard.antt =====
-- The observability dashboard (dashboard/frontend/src).
pub mod Telemetry
pub mod Stream
pub mod Health
pub mod Sparkline
pub mod Probe
pub mod Controls
pub mod Panels
