-- ===== src/FaceSystem/Lp/Reassembler/AnyOrder.antt =====
-- Reassembly of a whole message (daemon/face/lp-reassembler.cpp), and of what the fragmenter cuts
-- (daemon/face/lp-fragmenter.cpp) once the link service has numbered it.
use nfd.Base.{ℕ, ◌≡◌, List, [], ◌∷◌, some, none, get_elem?}
use nfd.FaceSystem.Lp.{LpPacket, LpOps}
use nfd.FaceSystem.Lp.Reassembler.{
  LpReassembler, concat_fragments, receive_fragment, Reassembled, false_return,
}
use nfd.FaceSystem.Lp.Reassembler.Completion.{Completes}

module _ {Headers : Type 0} (ops : LpOps Headers) (endpoint : ℕ) where
  -- The fragments at the positions of `order` arrive from the endpoint, each at its time: the
  -- state at the end, and what each call returned.
  unfoldable pub deliver :
      List (LpPacket Headers)
      → List (ℕ × ℕ)
      → LpReassembler Headers
      → LpReassembler Headers × List (Reassembled Headers)
  deliver frags [] r = (r, [])
  deliver frags ((i, now) ∷ order) r = elim (get_elem? frags i) [
    | none ↦ deliver frags order r
    | some p ↦
        let (r', out) = receive_fragment ops r endpoint p now in
        let (r'', outs) = deliver frags order r' in (r'', out ∷ outs)
  ]

  -- All calls but the last return FALSE_RETURN, and the last one ends with `result`.
  abbrev pub OnlyLast : List (Reassembled Headers) → Reassembled Headers → Type 0
  OnlyLast [] result = ⊥
  OnlyLast (out ∷ []) result = out ≡ result
  OnlyLast (out ∷ out' ∷ outs) result = (out ≡ false_return) × OnlyLast (out' ∷ outs) result

  module _ (base : ℕ) (first : LpPacket Headers) (rest : List (LpPacket Headers)) where
    abbrev frags : List (LpPacket Headers)
    frags = first ∷ rest

    -- How the deliveries end.
    abbrev pub EndsBy : LpReassembler Headers × List (Reassembled Headers) → Type 0
    EndsBy (r', outs) =
        (out : Reassembled Headers) × OnlyLast outs out
        × Completes ops endpoint base frags first (ops.to_block (concat_fragments frags)) r' out
