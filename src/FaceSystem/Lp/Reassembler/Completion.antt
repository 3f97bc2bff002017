-- ===== src/FaceSystem/Lp/Reassembler/Completion.antt =====
-- The last fragment of a message (daemon/face/lp-reassembler.cpp, receiveFragment and doReassembly).
use nfd.Base.{
  ℕ, ◌+◌, ◌%◌, ◌≡◌, ◌≢◌, refl, ◌∙◌, true, false, List, ◌∷◌, Option, some, none, inl, inr,
  Option-cases, length, get_elem?, set, ◌==◌, ==_refl, ==_iff, arith, Bool,
}
use nfd.FaceSystem.Lp.{LpPacket, LpOps, seq_mod}
use nfd.FaceSystem.Lp.Reassembler.{
  LpReassembler, concat_fragments, is_received, has_sequence, partial_of, add_fragment, write,
  finish, Reassembled, reassembled, tlv_error,
}
use nfd.FaceSystem.Lp.Reassembler.Messages.{
  count_true, count_set, length-set, fill_all, set-fill, received_fill, Stores,
}

module _ {Headers : Type 0} (ops : LpOps Headers) (endpoint base : ℕ)
    (frags : List (LpPacket Headers)) where
  abbrev id : ℕ
  id = base % seq_mod

  -- How the call that completes a message ends, by what the parser makes of its bytes: it
  -- returns the block and the first fragment, and the partial packet is dropped; or it throws,
  -- and the partial packet stays.
  abbrev pub Completes :
      LpPacket Headers → Option (List ℕ) → LpReassembler Headers → Reassembled Headers → Type 0
  Completes first (some block) r' out =
      (out ≡ reassembled block first) × (r'.partial_packets endpoint id ≡ none)
  Completes first none r' out = (out ≡ tlv_error) × (r'.partial_packets endpoint id ≢ none)

  add_malformed :
      (r : LpReassembler Headers) (i now : ℕ) (p : LpPacket Headers)
      → let pp = partial_of ops (r.partial_packets endpoint id) (length frags) in
        (length frags == pp.frag_count) ≡ true
        → is_received pp.fragments i ≡ false
        → (pp.n_received_fragments + 1 == pp.frag_count) ≡ true
        → ops.to_block (concat_fragments (set pp.fragments i p)) ≡ none
        → add_fragment ops r endpoint id i (length frags) p now ≡ (
          record r {
            partial_packets = write r.partial_packets endpoint id (
                some (record pp {
                  fragments = set pp.fragments i p;
                  n_received_fragments = pp.n_received_fragments + 1;
                }));
          },
          tlv_error,
        )
  unfolding add_fragment
  add_malformed r i now p same fresh done malformed = rw (same, fresh, done) (rw malformed refl)

  add_complete :
      (r : LpReassembler Headers) (i now : ℕ) (p : LpPacket Headers)
      → let pp = partial_of ops (r.partial_packets endpoint id) (length frags) in
        (length frags == pp.frag_count) ≡ true
        → is_received pp.fragments i ≡ false
        → (pp.n_received_fragments + 1 == pp.frag_count) ≡ true
        → (block : List ℕ) → ops.to_block (concat_fragments (set pp.fragments i p)) ≡ some block
        → add_fragment ops r endpoint id i (length frags) p now ≡ (
          record r { partial_packets = write r.partial_packets endpoint id none },
          finish block (set pp.fragments i p),
        )
  unfolding add_fragment
  add_complete r i now p same fresh done block parsed = rw (same, fresh, done) (rw parsed refl)

  -- The last missing fragment completes the message.
  pub add_last :
      (r : LpReassembler Headers) (flags : List Bool) (i now : ℕ) (p first : LpPacket Headers)
      (rest : List (LpPacket Headers))
      → Stores ops endpoint base frags r flags
      → length flags ≡ length frags
      → get_elem? flags i ≡ some false
      → get_elem? frags i ≡ some p
      → has_sequence p ≡ true
      → count_true flags + 1 ≡ length frags
      → frags ≡ first ∷ rest
      → (r' : LpReassembler Headers) × (out : Reassembled Headers) × (add_fragment ops r endpoint id
            i
            (length frags)
            p
            now
          ≡ (r', out))
        × Completes first (ops.to_block (concat_fragments frags)) r' out
  add_last r flags i now p first rest (timer, st) len unset got seq last eq =
      let pp = partial_of ops (r.partial_packets endpoint id) (length frags) in
      let full =
        set-fill ops flags frags i p unset got
        ∙ fill_all ops (set flags i true) frags (length-set flags i ∙ len)
            (omega (arith, count_set flags i unset, length-set flags i)) in
      let received = received_fill ops flags frags i false p unset got seq in
      let done = (==_iff (count_true flags + 1) (length frags)).1 last in
      elim (Option-cases (ops.to_block (concat_fragments frags))) [
        | inl malformed ↦ (
          record r {
            partial_packets = write r.partial_packets endpoint id (
                some (record pp {
                  fragments = set pp.fragments i p;
                  n_received_fragments = pp.n_received_fragments + 1;
                }));
          },
          tlv_error,
          add_malformed r i now p (rw st (==_refl (length frags))) (rw st received) (rw st done)
              (rw st (rw full malformed)),
          rw malformed (refl, rw (==_refl endpoint, ==_refl id) (λ h. absurd cc)),
        )
        | inr (block, parsed) ↦ (
          record r { partial_packets = write r.partial_packets endpoint id none },
          reassembled block first,
          add_complete r i now p (rw st (==_refl (length frags))) (rw st received) (rw st done)
                block (rw st (rw full parsed))
              ∙ rw st (rw full (rw eq refl)),
          rw parsed (refl, rw (==_refl endpoint, ==_refl id) refl),
        )
      ]
