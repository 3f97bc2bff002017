-- ===== src/Fw.antt =====
-- daemon/fw: what the forwarding pipelines and the strategies share.
pub mod Algorithm
pub mod RetxSuppression
pub mod ProcessNack
pub mod UnsolicitedData
pub mod Forwarder
pub mod Strategy
