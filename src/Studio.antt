-- ===== src/Studio.antt =====
-- The admin studio (studio/frontend/src): its API client, its state and its views.
pub mod Uri
pub mod Json
pub mod Number
pub mod Api
pub mod Collections
pub mod Shell
pub mod Buckets
pub mod Maintenance
pub mod Console
pub mod Queues
pub mod FullText
pub mod Vector
pub mod Overview
pub mod TimeSeries
pub mod Topics
