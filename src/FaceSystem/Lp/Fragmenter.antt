-- ===== src/FaceSystem/Lp/Fragmenter.antt =====
-- daemon/face/lp-fragmenter.{hpp,cpp}: the fragmentation of a network-layer packet.
--
-- The loop that fills the vector of fragments walks along it; a failure, `make_tuple(false, …)`,
-- is `none`. Sizes are size_t and do not wrap: every difference is guarded by a comparison.
pub mod Chunks
use nfd.Base.{
  ℕ, zero, suc, ◌+◌, ◌-◌, ◌/◌, ◌%◌, min, Bool, true, false, not, List, [], ◌∷◌, Option, some, none,
  length, take, drop, replicate, leb, ltb, ◌==◌, if◌then◌else◌, is_empty,
}
use nfd.FaceSystem.Lp.{LpPacket, LpOps, Element, empty_packet}

-- 1 + 9 + 1 + 1 + 8 + 1 + 9
abbrev pub max_single_frag_overhead : ℕ
max_single_frag_overhead = 30

-- 1 + 9 + 3 * (1 + 1 + 8) + 1 + 9
abbrev pub max_frag_overhead : ℕ
max_frag_overhead = 50

unfoldable pub header_size : List Element → ℕ
header_size [] = 0
header_size (e ∷ es) = (if e.is_fragment then 0 else e.size) + header_size es

module _ {Headers : Type 0} where
  -- The loop: `rest` is what stands between fragBegin and the end, `size` the distance from
  -- fragBegin to fragEnd.
  unfoldable pub populate :
      ℕ → ℕ → ℕ → ℕ → List ℕ → List (LpPacket Headers) → List (LpPacket Headers)
  populate count payload index size rest [] = []
  populate count payload index size rest (frag ∷ frags) =
      if is_empty rest
      then frag ∷ frags
      else record frag {
        frag_index = some index;
        frag_count = some count;
        fragment = take size rest;
      }
        ∷ populate count payload (index + 1) (min payload (length (drop size rest)))
            (drop size rest) frags

  module _ (ops : LpOps Headers) where
    abbrev pub first_header_size : LpPacket Headers → ℕ
    first_header_size packet =
        if ops.is_lp_packet packet then header_size (ops.elements packet) else 0

    abbrev pub first_payload_size : LpPacket Headers → ℕ → ℕ
    first_payload_size packet mtu =
        min (length packet.fragment) (mtu - first_header_size packet - max_frag_overhead)

    abbrev pub payload_size : ℕ → ℕ
    payload_size mtu = mtu - max_frag_overhead

    abbrev pub frag_count_of : LpPacket Headers → ℕ → ℕ
    frag_count_of packet mtu =
        let rest = length packet.fragment - first_payload_size packet mtu in
        1 + rest / payload_size mtu + (if rest % payload_size mtu == 0 then 0 else 1)

    unfoldable pub fragment_packet : ℕ → LpPacket Headers → ℕ → Option (List (LpPacket Headers))
    unfolding header_size populate
    fragment_packet max_fragments packet mtu =
        if leb (max_single_frag_overhead + ops.wire_size packet) mtu
        then some (packet ∷ [])
        else if ltb mtu (max_frag_overhead + first_header_size packet + 1)
        then none
        else if ltb max_fragments (frag_count_of packet mtu)
        then none
        else some (
            populate (frag_count_of packet mtu) (payload_size mtu) 0 (first_payload_size packet mtu)
              packet.fragment
              (packet ∷ replicate (frag_count_of packet mtu - 1) (empty_packet ops)))
