-- ===== src/FaceSystem/Lp/Reassembler.antt =====
-- daemon/face/lp-reassembler.{hpp,cpp}: the reassembly of a network-layer packet.
--
-- `std::map` with the key (endpoint, message identifier) is a function into `Option`. A block is
-- its bytes. A call that throws leaves the state as it is by then. `now` is the time of the call.
pub mod Messages
pub mod Completion
pub mod AnyOrder
use nfd.Base.{
  ℕ, ◌+◌, ◌-◌, ◌%◌, Bool, true, false, ◌&&◌, not, List, [], ◌∷◌, ◌++◌, Option, some, none,
  replicate, get_elem?, set, leb, ltb, ◌==◌, if◌then◌else◌,
}
use nfd.FaceSystem.Lp.{LpPacket, LpOps, empty_packet, seq_mod}

module _ {Headers : Type 0} where
  unfoldable pub concat_fragments : List (LpPacket Headers) → List ℕ
  concat_fragments [] = []
  concat_fragments (p ∷ ps) = p.fragment ++ concat_fragments ps

  abbrev pub has_sequence : LpPacket Headers → Bool
  has_sequence p = elim p.sequence [ none ↦ false | some _ ↦ true ]

pub record PartialPacket (Headers : Type 0) : Type 0 where
  pub fragments : List (LpPacket Headers)
  pub frag_count : ℕ
  pub n_received_fragments : ℕ
  pub drop_timer : ℕ

pub record LpReassembler (Headers : Type 0) : Type 0 where
  pub max_fragments : ℕ
  pub reassembly_timeout : ℕ
  pub partial_packets : ℕ → ℕ → Option (PartialPacket Headers)

-- How a call ends: FALSE_RETURN, the block and the first fragment, or the exception tlv::Error.
pub data Reassembled (Headers : Type 0) : Type 0 where
  false_return : Reassembled Headers
  reassembled : List ℕ → LpPacket Headers → Reassembled Headers
  tlv_error : Reassembled Headers

abbrev pub get_or_default : Option ℕ → ℕ → ℕ
get_or_default none d = d
get_or_default (some n) d = n

module _ {Headers : Type 0} where
  abbrev pub write :
      (ℕ → ℕ → Option (PartialPacket Headers))
      → ℕ
      → ℕ
      → Option (PartialPacket Headers)
      → ℕ
      → ℕ
      → Option (PartialPacket Headers)
  write m endpoint id v e i = if endpoint == e && id == i then v else m e i

  -- The element access `fragments[i]`; the index is below the size.
  abbrev pub is_received : List (LpPacket Headers) → ℕ → Bool
  is_received frags i = elim (get_elem? frags i) [ none ↦ false | some p ↦ has_sequence p ]

  -- The block and `fragments[0]`; there is one.
  abbrev pub finish : List ℕ → List (LpPacket Headers) → Reassembled Headers
  finish block [] = false_return
  finish block (first ∷ rest) = reassembled block first

  module _ (ops : LpOps Headers) where
    -- `m_partialPackets[key]`, with the members that a new one is given.
    abbrev pub partial_of : Option (PartialPacket Headers) → ℕ → PartialPacket Headers
    partial_of none count = record {
      fragments = replicate count (empty_packet ops);
      frag_count = count;
      n_received_fragments = 0;
      drop_timer = 0;
    }
    partial_of (some pp) count = pp

    -- From "add to PartialPacket" on.
    unfoldable pub add_fragment :
        LpReassembler Headers
        → ℕ
        → ℕ
        → ℕ
        → ℕ
        → LpPacket Headers
        → ℕ
        → LpReassembler Headers × Reassembled Headers
    unfolding concat_fragments
    add_fragment r endpoint id index count packet now =
        let pp = partial_of (r.partial_packets endpoint id) count in
        if not (count == pp.frag_count)
        then (r, false_return)
        else if is_received pp.fragments index
        then (r, false_return)
        else (let fragments = set pp.fragments index packet in
            if pp.n_received_fragments + 1 == pp.frag_count
            then elim (ops.to_block (concat_fragments fragments)) [
              | none ↦ (
                record r {
                  partial_packets = write r.partial_packets endpoint id (
                      some (record pp {
                        fragments = fragments;
                        n_received_fragments = pp.n_received_fragments + 1;
                      }));
                },
                tlv_error,
              )
              | some block ↦ (
                record r { partial_packets = write r.partial_packets endpoint id none },
                finish block fragments,
              )
            ]
            else (
              record r {
                partial_packets = write r.partial_packets endpoint id (
                    some (record {
                      fragments = fragments;
                      frag_count = pp.frag_count;
                      n_received_fragments = pp.n_received_fragments + 1;
                      drop_timer = now + r.reassembly_timeout;
                    }));
              },
              false_return,
            ))

    unfoldable pub receive_fragment :
        LpReassembler Headers
        → ℕ
        → LpPacket Headers
        → ℕ
        → LpReassembler Headers × Reassembled Headers
    receive_fragment r endpoint packet now =
        let index = get_or_default packet.frag_index 0 in
        let count = get_or_default packet.frag_count 1 in
        if leb count index
        then (r, false_return)
        else if ltb r.max_fragments count
        then (r, false_return)
        else if index == 0 && count == 1
        then elim (ops.to_block packet.fragment) [
          | none ↦ (r, tlv_error)
          | some block ↦ (r, reassembled block packet)
        ]
        else elim packet.sequence [
          | none ↦ (r, false_return)
          | some seq ↦
              add_fragment r endpoint ((seq + seq_mod - index) % seq_mod) index count packet now
        ]

  -- The key whose timer fires is dropped, if it is there.
  unfoldable pub timeout_partial_packet : LpReassembler Headers → ℕ → ℕ → LpReassembler Headers
  timeout_partial_packet r endpoint id = elim (r.partial_packets endpoint id) [
    | none ↦ r
    | some _ ↦ record r { partial_packets = write r.partial_packets endpoint id none }
  ]
