-- ===== src/Tests/Lp.antt =====
-- Fragmentation and reassembly at concrete packets.
use nfd.Base.{All}
use nfd.Base.{
  ℕ, ◌+◌, ◌≡◌, ◌≤◌, ◌⊎◌, refl, true, false, List, [], ◌∷◌, Option, some, none, length, arith,
}
use nfd.FaceSystem.Lp.{LpPacket, LpOps}
use nfd.FaceSystem.Lp.Fragmenter.{fragment_packet, first_payload_size, payload_size}
use nfd.FaceSystem.Lp.Fragmenter.Chunks.{fragment_packet_lem, Fits, IsRefused, IsNumbered}
use nfd.FaceSystem.Lp.Reassembler.{LpReassembler, concat_fragments}
use nfd.FaceSystem.Lp.Congestion.{CongestionOptions, no_incident}
use nfd.FaceSystem.Lp.Congestion.Marking.{send_all, check_congestion_level-IsNotBefore}

abbrev sizes : LpOps ℕ
sizes = record {
  wire_size = λ p. length p.fragment + 20;
  is_lp_packet = λ p. true;
  elements = λ p.
      record { is_fragment = false; size = 3 }
      ∷ record { is_fragment = true; size = length p.fragment }
      ∷ [];
  no_headers = 0;
  to_block = λ bytes. elim bytes [ [] ↦ none | b ∷ bs ↦ some (b ∷ bs) ];
}

abbrev piece : List ℕ → Option ℕ → Option ℕ → ℕ → LpPacket ℕ
piece bytes index count headers = record {
  fragment = bytes;
  sequence = none;
  frag_index = index;
  frag_count = count;
  headers = headers;
}

abbrev large : LpPacket ℕ
large = piece (1 ∷ 2 ∷ 3 ∷ 4 ∷ 5 ∷ 6 ∷ 7 ∷ 8 ∷ []) none none 9

abbrev pieces : List (LpPacket ℕ)
pieces =
    piece (1 ∷ 2 ∷ 3 ∷ []) (some 0) (some 2) 9
    ∷ piece (4 ∷ 5 ∷ 6 ∷ 7 ∷ 8 ∷ []) (some 1) (some 2) 0
    ∷ []

fragment_packet_example :
    (Fits sizes 400 large 56 × (fragment_packet sizes 400 large 56 ≡ some (large ∷ [])))
    ⊎ ((¬ Fits sizes 400 large 56)
        × IsRefused sizes 400 large 56
        × (fragment_packet sizes 400 large 56 ≡ none))
    ⊎ ((¬ Fits sizes 400 large 56)
        × (¬ IsRefused sizes 400 large 56)
        × ((frags : List (LpPacket ℕ)) × (fragment_packet sizes 400 large 56 ≡ some frags)
            × (concat_fragments frags ≡ large.fragment)
            × IsNumbered
                (length frags)
                (payload_size sizes 56)
                0
                (first_payload_size sizes large 56)
                frags
            × (length frags ≤ 400)))
fragment_packet_example = fragment_packet_lem sizes 400 large 56 (omega arith)

abbrev idle : LpReassembler ℕ
idle = record {
  max_fragments = 400;
  reassembly_timeout = 500;
  partial_packets = λ endpoint id. none;
}

abbrev numbered : ℕ → ℕ → LpPacket ℕ
numbered byte index = record {
  fragment = byte ∷ [];
  sequence = some (50 + index);
  frag_index = some index;
  frag_count = some 2;
  headers = 0;
}

abbrev marking : CongestionOptions
marking = record {
  default_congestion_threshold = 65536;
  base_congestion_marking_interval = 100;
  interval_after = λ n. 70;
}

abbrev burst : List (Option ℕ × ℕ)
burst = (some 70000, 20) ∷ (none, 30) ∷ (some 70000, 90) ∷ []

-- Above the threshold for longer than the interval, the second packet is marked.
burst-marked :
    (send_all marking no_incident ((some 70000, 10) ∷ (some 70000, 130) ∷ [])).1 ≡ false ∷ true ∷ []
unfolding send_all
burst-marked = refl

check_congestion_level-IsNotBefore_example :
    All (λ marked. marked ≡ false) (send_all marking no_incident burst).1
check_congestion_level-IsNotBefore_example =
    check_congestion_level-IsNotBefore marking 10 no_incident burst tt
      ((omega arith, omega arith), ((omega arith, omega arith), ((omega arith, omega arith), tt)))
