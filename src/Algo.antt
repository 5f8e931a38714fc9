-- ===== src/Algo.antt =====
-- enova/algo/service.py: the configuration advice and the anomaly rules of the algorithm service.
pub mod Factors
pub mod Numbers
pub mod Models
pub mod Memory
pub mod Metrics
pub mod Detect
pub mod Recommend
pub mod Recover
mod Examples
