-- ===== src/FaceSystem/Lp/RoundTrip.antt =====
-- What the fragmenter cuts and the link service numbers, the reassembler puts together
-- (daemon/face/lp-fragmenter.cpp, generic-link-service.cpp assignSequences, lp-reassembler.cpp).
