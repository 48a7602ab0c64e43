-- ===== src/Calibration.antt =====
-- amm-calibration/src: the shape of the price curve from a history of measurements.
pub mod Pricing
pub mod Optimizer
mod Examples
