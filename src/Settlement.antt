-- ===== src/Settlement.antt =====
-- amm-execution-node/src: the settlement engine.
pub mod Ids
pub mod Sigmoid
pub mod Penalties
pub mod Structs
pub mod Builder
pub mod Validator
pub mod Engine
mod Examples
