-- ===== src/FaceSystem/Lp/Fragmenter/Chunks.antt =====
-- The fragments of a packet (daemon/face/lp-fragmenter.cpp, fragmentPacket).
use native.Mathlib.Nat.{mod-eq_of_lt, mod-eq-sub-mod, zero-div, div-eq-sub-div, div-eq_of_lt}
use nfd.Base.{
  ℕ, zero, suc, ◌+◌, ◌-◌, ◌/◌, ◌%◌, ◌≤◌, ◌<◌, min, ◌≡◌, refl, sym, ap, ◌∙◌, ◌⊎◌, inl, inr, List, [],
  ◌∷◌, ◌++◌, some, none, length, take, drop, replicate, leb, ltb, ◌==◌, if◌then◌else◌, arith,
  Bool-cases, ==_ne, ltb→lt, ltb-false→le, ==_iff, leb→le, leb-false→lt, length-take, length-drop,
  take-append-drop,
}
use mathlib.Core.Path.{subst}
use nfd.FaceSystem.Lp.{LpPacket, LpOps, empty_packet}
use nfd.FaceSystem.Lp.Reassembler.{concat_fragments}
use nfd.FaceSystem.Lp.Fragmenter.{
  populate, fragment_packet, max_single_frag_overhead, max_frag_overhead, first_header_size,
  first_payload_size, payload_size, frag_count_of,
}

-- How many fragments `m` bytes take, `payload` in each.
abbrev ceiling : ℕ → ℕ → ℕ
ceiling m payload = m / payload + (if m % payload == 0 then 0 else 1)

ceiling_zero : (payload : ℕ) → 0 < payload → ceiling 0 payload ≡ 0
ceiling_zero payload h = rw (zero-div payload, mod-eq_of_lt h) refl

ceiling_step :
    (m payload : ℕ)
    → 0 < payload
    → payload ≤ m
    → ceiling m payload ≡ suc (ceiling (m - payload) payload)
ceiling_step m payload pos h =
    rw (mod-eq-sub-mod h) (omega (arith, div-eq-sub-div {m = payload} {n = m} pos h))

ceiling_small : (m payload : ℕ) → 0 < m → m ≤ payload → ceiling m payload ≡ 1
ceiling_small m payload pos h = elim (Bool-cases (leb payload m)) [
  | inl ge ↦
      let e : m ≡ payload = omega (arith, leb→le _ _ ge) in
      ceiling_step m payload (omega arith) (omega (arith, e))
      ∙ ap suc (rw (e, zero_of payload) (ceiling_zero payload (omega arith)))
  | inr lt ↦
      let below = leb-false→lt _ _ lt in
      rw (div-eq_of_lt below, mod-eq_of_lt below) (rw (==_ne m 0 (omega arith)) refl)
]
  where
    zero_of : (n : ℕ) → n - n ≡ 0
    zero_of n = omega arith

-- The fragments that `n` bytes take, `size` in the first.
abbrev needed : ℕ → ℕ → ℕ → ℕ
needed payload size n = if n == 0 then 0 else 1 + ceiling (n - size) payload

needed_step :
    (payload size n : ℕ)
    → 0 < payload
    → 0 < n
    → needed payload size n ≡ suc (needed payload (min payload (n - size)) (n - size))
needed_step payload size n pos some_left = elim (Bool-cases (leb payload (n - size))) [
  | inl ge ↦
      let le = leb→le _ _ ge in
      let e : min payload (n - size) ≡ payload = omega arith in
      rw (==_ne n 0 (omega arith), e, ==_ne (n - size) 0 (omega arith))
        (omega (arith, ceiling_step (n - size) payload pos le))
  | inr lt ↦
      let below = leb-false→lt _ _ lt in
      elim (Bool-cases ((n - size) == 0)) [
        | inl none_left ↦
            let z : n - size ≡ 0 = (==_iff _ _).0 none_left in
            rw (==_ne n 0 (omega arith), z) (omega (arith, ceiling_zero payload pos))
        | inr more ↦
            let m_pos : 0 < n - size = ground arith in
            let e : min payload (n - size) ≡ n - size = omega arith in
            let z : n - size - (n - size) ≡ 0 = omega arith in
            rw (==_ne n 0 (omega arith), e, more, z)
              (omega (
                arith,
                ceiling_small (n - size) payload m_pos (omega arith),
                ceiling_zero payload pos,
              ))
      ]
]

module _ {Headers : Type 0} where
  -- Numbered from `index`, with the count, and neither empty nor longer than `payload` but for the
  -- first, which holds `size` bytes.
  abbrev pub IsNumbered : ℕ → ℕ → ℕ → ℕ → List (LpPacket Headers) → Type 0
  IsNumbered count payload index size [] = Unit {0}
  IsNumbered count payload index size (p ∷ ps) =
      (p.frag_index ≡ some index)
      × (p.frag_count ≡ some count)
      × (0 < length p.fragment)
      × (length p.fragment ≤ size)
      × IsNumbered count payload (index + 1) payload ps

  IsNumbered-mono :
      (count payload index a b : ℕ) (ps : List (LpPacket Headers))
      → a ≤ b
      → IsNumbered count payload index a ps
      → IsNumbered count payload index b ps
  IsNumbered-mono count payload index a b [] le h = tt
  IsNumbered-mono count payload index a b (p ∷ ps) le (i, c, pos, l, rest) =
      (i, c, pos, omega arith, rest)

  populate_lem :
      (count payload index size : ℕ) (rest : List ℕ) (frags : List (LpPacket Headers))
      → 0 < payload
      → (0 < length rest → 0 < size)
      → length frags ≡ needed payload size (length rest)
      → let out = populate count payload index size rest frags in
        (concat_fragments out ≡ rest)
        × IsNumbered count payload index size out
        × (length out ≡ length frags)
  unfolding populate concat_fragments
  populate_lem count payload index size [] [] pos sized len = (refl, tt, refl)
  populate_lem count payload index size (b ∷ rest) [] pos sized len =
      absurd (omega (arith, needed_step payload size (suc (length rest)) pos (omega arith)))
  populate_lem count payload index size [] (f ∷ frags) pos sized len = absurd (omega arith)
  populate_lem count payload index size (b ∷ rest) (f ∷ frags) pos sized len =
      let all : List ℕ = b ∷ rest in
      let later = drop size all in
      let next = min payload (length later) in
      let ll = length-drop size all in
      let e = needed_step payload size (length all) pos (omega arith) in
      let (cat, numbered, lens) =
        populate_lem count payload (index + 1) next later frags pos (λ h. omega arith)
          (rw ll (omega (arith, len, e))) in
      (
        ap (◌++◌ (take size all)) cat ∙ take-append-drop size all,
        (
          refl,
          refl,
          omega (arith, length-take size all, sized (omega arith)),
          omega (arith, length-take size all),
          IsNumbered-mono count payload (index + 1) next payload _ (omega arith) numbered,
        ),
        ap suc lens,
      )

  length-replicate : (n : ℕ) (p : LpPacket Headers) → length (replicate n p) ≡ n
  length-replicate zero p = refl
  length-replicate (suc n) p = ap suc (length-replicate n p)

  module _ (ops : LpOps Headers) (max_fragments : ℕ) (packet : LpPacket Headers) (mtu : ℕ) where
    -- The packet fits into one link-layer packet as it is.
    abbrev pub Fits : Type 0
    Fits = max_single_frag_overhead + ops.wire_size packet ≤ mtu

    -- The first fragment cannot hold a byte, or the fragments are too many.
    abbrev pub IsRefused : Type 0
    IsRefused =
        (mtu ≤ max_frag_overhead + first_header_size ops packet)
        ⊎ (max_fragments < frag_count_of ops packet mtu)

    -- Fragmentation has three outcomes. A packet that fits is sent as it is. One that does not is
    -- dropped exactly when the MTU leaves no byte for the first fragment or the fragments are more
    -- than allowed. Any other is cut into fragments whose payloads, one after the other, are the
    -- packet's; they are numbered from 0, carry their number, are at most as many as allowed, and
    -- none is empty or exceeds the payload that the MTU leaves.
    pub fragment_packet_lem :
        0 < length packet.fragment
        → (Fits × (fragment_packet ops max_fragments packet mtu ≡ some (packet ∷ [])))
          ⊎ ((¬ Fits) × IsRefused × (fragment_packet ops max_fragments packet mtu ≡ none))
          ⊎ ((¬ Fits)
              × (¬ IsRefused)
              × ((frags : List (LpPacket Headers)) × (fragment_packet ops max_fragments packet mtu
                    ≡ some frags)
                  × (concat_fragments frags ≡ packet.fragment)
                  × IsNumbered
                      (length frags)
                      (payload_size ops mtu)
                      0
                      (first_payload_size ops packet mtu)
                      frags
                  × (length frags ≤ max_fragments)))
    unfolding fragment_packet
    fragment_packet_lem pos =
        elim (Bool-cases (leb (max_single_frag_overhead + ops.wire_size packet) mtu)) [
          | inl fits ↦ inl (leb→le _ _ fits, rw fits refl)
          | inr large ↦
              let not_fits : ¬ Fits = λ f. absurd (omega (arith, leb-false→lt _ _ large)) in
              inr
                (elim (Bool-cases
                  (ltb mtu (max_frag_overhead + first_header_size ops packet + 1))) [
                    | inl tiny ↦
                        inl (not_fits, inl (omega (arith, ltb→lt _ _ tiny)), rw (large, tiny) refl)
                    | inr room ↦
                        elim (Bool-cases (ltb max_fragments (frag_count_of ops packet mtu))) [
                          | inl many ↦
                              inl (not_fits, inr (ltb→lt _ _ many), rw (large, room, many) refl)
                          | inr few ↦
                              let left = ltb-false→le _ _ room in
                              let allowed = ltb-false→le _ _ few in
                              let count = frag_count_of ops packet mtu in
                              let size = first_payload_size ops packet mtu in
                              let frags = packet ∷ replicate (count - 1) (empty_packet ops) in
                              let len : length frags ≡ count =
                                omega (arith, length-replicate (count - 1) (empty_packet ops)) in
                              let (cat, numbered, lens) =
                                populate_lem count (payload_size ops mtu) 0 size packet.fragment
                                  frags (omega arith) (λ h. omega arith)
                                  (rw (==_ne (length packet.fragment) 0 (omega arith))
                                    (omega (arith, len))) in
                              let out =
                                populate count (payload_size ops mtu) 0 size packet.fragment
                                  frags in
                              let total : length out ≡ count = lens ∙ len in
                              inr (
                                not_fits,
                                (λ r. elim r [
                                  | inl small ↦ absurd (omega arith)
                                  | inr over ↦ absurd (omega arith)
                                ]),
                                (
                                  out,
                                  rw (large, room, few) refl,
                                  cat,
                                  subst (λ n. IsNumbered n (payload_size ops mtu) 0 size out)
                                      (sym total) numbered,
                                  omega (arith, total),
                                ),
                              )
                        ]
                  ])
        ]
