-- ===== src/FaceSystem/Lp/Reassembler/Messages.antt =====
-- A message whose fragments arrive in any order (daemon/face/lp-reassembler.cpp,
-- receiveFragment).
use nfd.Base.{
  ℕ, zero, suc, ◌+◌, ◌-◌, ◌%◌, ◌≤◌, ◌<◌, ◌≡◌, ◌≢◌, refl, ap, Bool, true, false, List, [], ◌∷◌, some,
  length, get_elem?, set, replicate, count_if, ==_ne, ==_refl, if◌then◌else◌, arith,
}
use nfd.FaceSystem.Lp.{LpPacket, LpOps, empty_packet, seq_mod}
use nfd.FaceSystem.Lp.Reassembler.{
  LpReassembler, PartialPacket, is_received, has_sequence, partial_of, add_fragment,
  receive_fragment, write, false_return,
}

module _ {Headers : Type 0} where
  -- The fragments of one message, the first of which has the sequence number `base`: each knows
  -- its position and their number, and the sequence numbers are consecutive.
  abbrev pub IsMessage : ℕ → List (LpPacket Headers) → Type 0
  IsMessage base frags =
      (i : ℕ) (p : LpPacket Headers)
      → get_elem? frags i ≡ some p
      → (p.frag_index ≡ some i)
        × (p.frag_count ≡ some (length frags))
        × (p.sequence ≡ some ((base + i) % seq_mod))

abbrev pub count_true : List Bool → ℕ
count_true flags = count_if (λ b. b) flags

-- `order` visits each position whose flag is not set exactly once, and no other.
abbrev pub VisitsOnce : List Bool → List (ℕ × ℕ) → Type 0
VisitsOnce flags [] = count_true flags ≡ length flags
VisitsOnce flags ((i, now) ∷ order) =
    (get_elem? flags i ≡ some false) × VisitsOnce (set flags i true) order

pub count_set :
    (flags : List Bool) (i : ℕ)
    → get_elem? flags i ≡ some false
    → count_true (set flags i true) ≡ count_true flags + 1
count_set [] i h = absurd (ground arith)
count_set (b ∷ flags) zero h = ground arith
count_set (b ∷ flags) (suc i) h = ground (arith, count_set flags i h)

pub length-set : (flags : List Bool) (i : ℕ) → length (set flags i true) ≡ length flags
length-set [] i = refl
length-set (b ∷ flags) zero = refl
length-set (b ∷ flags) (suc i) = ap suc (length-set flags i)

pub count_true-le : (flags : List Bool) → count_true flags ≤ length flags
count_true-le [] = omega arith
count_true-le (b ∷ flags) = ground (arith, count_true-le flags)

in_range {ℓ} : {A : Type ℓ} (xs : List A) (i : ℕ) (a : A) → get_elem? xs i ≡ some a → i < length xs
in_range [] i a h = absurd (ground arith)
in_range (x ∷ xs) zero a h = omega arith
in_range (x ∷ xs) (suc i) a h = omega (arith, in_range xs i a h)

lt_ne : (a b : ℕ) → a < b → a ≢ b
lt_ne a b h = omega arith

module _ {Headers : Type 0} (ops : LpOps Headers) where
  -- The fragments whose flag is set, and empty packets elsewhere.
  abbrev pub fill : List Bool → List (LpPacket Headers) → List (LpPacket Headers)
  fill [] frags = []
  fill (b ∷ flags) [] = []
  fill (b ∷ flags) (f ∷ frags) = (if b then f else empty_packet ops) ∷ fill flags frags

  pub fill_unset :
      (frags : List (LpPacket Headers))
      → fill (replicate (length frags) false) frags ≡ replicate (length frags) (empty_packet ops)
  fill_unset [] = refl
  fill_unset (f ∷ frags) = ap (◌∷◌ (empty_packet ops)) (fill_unset frags)

  pub fill_all :
      (flags : List Bool) (frags : List (LpPacket Headers))
      → length flags ≡ length frags
      → count_true flags ≡ length flags
      → fill flags frags ≡ frags
  fill_all [] [] len all = refl
  fill_all [] (f ∷ frags) len all = absurd (omega arith)
  fill_all (b ∷ flags) [] len all = absurd (omega arith)
  fill_all (true ∷ flags) (f ∷ frags) len all =
      ap (◌∷◌ f) (fill_all flags frags (omega arith) (omega arith))
  fill_all (false ∷ flags) (f ∷ frags) len all = absurd (omega (arith, count_true-le flags))

  pub set-fill :
      (flags : List Bool) (frags : List (LpPacket Headers)) (i : ℕ) (p : LpPacket Headers)
      → get_elem? flags i ≡ some false
      → get_elem? frags i ≡ some p
      → set (fill flags frags) i p ≡ fill (set flags i true) frags
  set-fill [] frags i p hf hp = refl
  set-fill (b ∷ flags) [] i p hf hp = absurd (ground arith)
  set-fill (b ∷ flags) (f ∷ frags) zero p hf hp = ground arith
  set-fill (b ∷ flags) (f ∷ frags) (suc i) p hf hp =
      ap (◌∷◌ (if b then f else empty_packet ops)) (set-fill flags frags i p hf hp)

  pub received_fill :
      (flags : List Bool) (frags : List (LpPacket Headers)) (i : ℕ) (b : Bool)
      (p : LpPacket Headers)
      → get_elem? flags i ≡ some b
      → get_elem? frags i ≡ some p
      → has_sequence p ≡ true
      → is_received (fill flags frags) i ≡ b
  received_fill [] frags i b p hf hp s = absurd (ground arith)
  received_fill (c ∷ flags) [] i b p hf hp s = absurd (ground arith)
  received_fill (c ∷ flags) (f ∷ frags) zero b p hf hp s = ground arith
  received_fill (c ∷ flags) (f ∷ frags) (suc i) b p hf hp s =
      received_fill flags frags i b p hf hp s

  module _ (endpoint base : ℕ) (frags : List (LpPacket Headers)) where
    abbrev pub message_id : ℕ
    message_id = base % seq_mod

    -- What is stored of the message: the fragments whose flag is set, and how many these are.
    abbrev pub stored : List Bool → ℕ → PartialPacket Headers
    stored flags timer = record {
      fragments = fill flags frags;
      frag_count = length frags;
      n_received_fragments = count_true flags;
      drop_timer = timer;
    }

    abbrev pub Stores : LpReassembler Headers → List Bool → Type 0
    Stores r flags =
        (timer : ℕ) × (partial_of ops (r.partial_packets endpoint message_id) (length frags)
          ≡ stored flags timer)

    key_of : (i : ℕ) → i < seq_mod → ((base + i) % seq_mod + seq_mod - i) % seq_mod ≡ message_id
    key_of i h = omega arith

    -- A fragment of the message goes to the partial packet of its message.
    pub receive_as_add :
        (r : LpReassembler Headers) (i now : ℕ) (p : LpPacket Headers)
        → IsMessage base frags
        → 2 ≤ length frags
        → length frags ≤ r.max_fragments
        → length frags < seq_mod
        → get_elem? frags i ≡ some p
        → receive_fragment ops r endpoint p now
          ≡ add_fragment ops r endpoint message_id i (length frags) p now
    unfolding receive_fragment
    receive_as_add r i now p m two few small got =
        let (index, count, seq) = m i p got in
        let below = in_range frags i p got in
        ground (arith, index, count, seq, below, key_of i (omega arith))

    -- A fragment that has not arrived and is not the last one missing is stored.
    pub add_more :
        (r : LpReassembler Headers) (flags : List Bool) (i now : ℕ) (p : LpPacket Headers)
        → Stores r flags
        → get_elem? flags i ≡ some false
        → get_elem? frags i ≡ some p
        → has_sequence p ≡ true
        → count_true flags + 1 < length frags
        → (r' : LpReassembler Headers) × (add_fragment ops r endpoint message_id i
              (length frags)
              p
              now
            ≡ (r', false_return))
          × Stores r' (set flags i true)
          × (r'.max_fragments ≡ r.max_fragments)
    unfolding add_fragment
    add_more r flags i now p (timer, st) unset got seq more = (
      record r {
        partial_packets =
            write r.partial_packets endpoint message_id
              (some (stored (set flags i true) (now + r.reassembly_timeout)));
      },
      rw st (
          rw
            (
              ==_refl (length frags),
              received_fill flags frags i false p unset got seq,
              ==_ne _ _ (lt_ne _ _ more),
            )
            (rw (set-fill flags frags i p unset got, ← count_set flags i unset) refl)),
      (now + r.reassembly_timeout, rw (==_refl endpoint, ==_refl message_id) refl),
      refl,
    )
