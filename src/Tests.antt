-- ===== src/Tests.antt =====
-- Runs of the definitions on concrete inputs, and the theorems at such inputs.
mod Api
mod Server
mod Collections
mod Dashboard
mod Shell
mod TimeSeries
mod Views
mod Console
mod Engine
mod Queue
mod Database
mod Rows
mod Sparkline
mod Controls
