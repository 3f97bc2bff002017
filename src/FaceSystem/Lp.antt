-- ===== src/FaceSystem/Lp.antt =====
-- NDNLPv2 packets (ndn-cxx lp::Packet) as daemon/face/lp-fragmenter.cpp and lp-reassembler.cpp see
-- them, and the assignment of sequence numbers in daemon/face/generic-link-service.cpp.
--
-- A packet is its Fragment field, a list of bytes, which the callers assert to be present, the
-- three optional fields of fragmentation, and all other header fields, a value of the parameter
-- type `Headers`. What the encoder says of a packet, and the parser of bytes, is in `LpOps`.
-- Sequence numbers are uint64_t and wrap.
pub mod Fragmenter
pub mod Reassembler
pub mod RoundTrip
pub mod Congestion
use nfd.Base.{ℕ, ◌+◌, ◌%◌, ◌^◌, Bool, List, [], ◌∷◌, Option, some, none}

pub record LpPacket (Headers : Type 0) : Type 0 where
  pub fragment : List ℕ
  pub sequence : Option ℕ
  pub frag_index : Option ℕ
  pub frag_count : Option ℕ
  pub headers : Headers

-- An element of the encoded packet: whether its type is Fragment, and its size.
pub record Element : Type 0 where
  pub is_fragment : Bool
  pub size : ℕ

-- The size of the encoding, whether its type is LpPacket, its elements, the header fields of a
-- packet that is constructed empty, and the constructor of Block: the bytes of the block that a
-- buffer starts with, or `none` for the exception tlv::Error.
pub record LpOps (Headers : Type 0) : Type 0 where
  pub wire_size : LpPacket Headers → ℕ
  pub is_lp_packet : LpPacket Headers → Bool
  pub elements : LpPacket Headers → List Element
  pub no_headers : Headers
  pub to_block : List ℕ → Option (List ℕ)

abbrev pub empty_packet : {Headers : Type 0} → LpOps Headers → LpPacket Headers
empty_packet ops = record {
  fragment = [];
  sequence = none;
  frag_index = none;
  frag_count = none;
  headers = ops.no_headers;
}

abbrev pub seq_mod : ℕ
seq_mod = 2 ^ 64

-- `assignSequences`, from the last sequence number used; each packet takes the next one.
unfoldable pub assign_sequences :
    {Headers : Type 0} → ℕ → List (LpPacket Headers) → List (LpPacket Headers)
assign_sequences last [] = []
assign_sequences last (p ∷ ps) =
    record p { sequence = some ((last + 1) % seq_mod) } ∷ assign_sequences ((last + 1) % seq_mod) ps
