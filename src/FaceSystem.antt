-- ===== src/FaceSystem.antt =====
-- daemon/face: transports and the NDNLPv2 link service.
pub mod Transport
pub mod Lp
