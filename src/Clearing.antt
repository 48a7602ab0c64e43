-- ===== src/Clearing.antt =====
-- amm-clearing-node/src: the clearing of a market slot.
pub mod Sigmoid
pub mod Orders
pub mod Preferences
pub mod Pricing
pub mod Adapters
pub mod Run
pub mod Scheduler
pub mod Retry
pub mod Ewds
pub mod Contract
pub mod Ontology
pub mod Texts
pub mod MarketIds
pub mod Dialects
pub mod Examples
