-- ===== src/Fw/Algorithm/Nonces.antt =====
-- Duplicate Nonces and pending out-records (daemon/fw/algorithm.cpp, findDuplicateNonce,
-- hasPendingOutRecords, getLastOutgoing).
use nfd.Base.{
  ℕ, ◌≤◌, ◌≡◌, refl, Bool, true, false, ◌&&◌, ◌||◌, not, List, [], ◌∷◌, some, any_of, ltb, ◌==◌,
  arith, All, IsOneOf, inl, inr, Bool-cases, ltb→lt, ltb-false→le,
}
use mathlib.Core.Path.{subst}
use nfd.Packet.{Face, same_face}
use nfd.Table.Pit.{Entry, InRecord, OutRecord}
use nfd.Fw.Algorithm.{
  DuplicateNonceWhere, duplicate_nonce_none, scan_in_records, scan_out_records,
  find_duplicate_nonce, max_renewed, get_last_outgoing,
}

module _ {Name : Type 0} (nonce : ℕ) (face : Face) where
  -- An in-record of the face itself, or of another, with the Nonce.
  abbrev pub same_in : InRecord Name → Bool
  same_in r = r.base.last_nonce == nonce && same_face r.base.face face

  abbrev pub other_in : InRecord Name → Bool
  other_in r = r.base.last_nonce == nonce && not (same_face r.base.face face)

  scan_in_lem :
      (rs : List (InRecord Name)) (d : DuplicateNonceWhere)
      → scan_in_records nonce face rs d ≡ record d {
        in_same = d.in_same || any_of same_in rs;
        in_other = d.in_other || any_of other_in rs;
      }
  unfolding scan_in_records
  scan_in_lem [] d = ground arith
  scan_in_lem (r ∷ rs) d = ground (
    arith,
    scan_in_lem rs d,
    scan_in_lem rs (record d { in_same = true }),
    scan_in_lem rs (record d { in_other = true }),
  )

module _ (nonce : ℕ) (face : Face) where
  abbrev pub same_out : OutRecord → Bool
  same_out r = r.base.last_nonce == nonce && same_face r.base.face face

  abbrev pub other_out : OutRecord → Bool
  other_out r = r.base.last_nonce == nonce && not (same_face r.base.face face)

  scan_out_lem :
      (rs : List OutRecord) (d : DuplicateNonceWhere)
      → scan_out_records nonce face rs d ≡ record d {
        out_same = d.out_same || any_of same_out rs;
        out_other = d.out_other || any_of other_out rs;
      }
  unfolding scan_out_records
  scan_out_lem [] d = ground arith
  scan_out_lem (r ∷ rs) d = ground (
    arith,
    scan_out_lem rs d,
    scan_out_lem rs (record d { out_same = true }),
    scan_out_lem rs (record d { out_other = true }),
  )

-- Each flag says whether there is a record of its kind (in or out, of the same face or of another)
-- with the Nonce.
pub find_duplicate_nonce_lem :
    {Name : Type 0} (e : Entry Name) (nonce : ℕ) (face : Face)
    → find_duplicate_nonce e nonce face ≡ record {
      in_same = any_of (same_in nonce face) e.in_records;
      in_other = any_of (other_in nonce face) e.in_records;
      out_same = any_of (same_out nonce face) e.out_records;
      out_other = any_of (other_out nonce face) e.out_records;
    }
unfolding find_duplicate_nonce
find_duplicate_nonce_lem e nonce face =
    rw (scan_in_lem nonce face e.in_records duplicate_nonce_none)
      (rw (scan_out_lem nonce face e.out_records) refl)

max_renewed_later :
    (best r : OutRecord) (rs : List OutRecord)
    → ltb best.base.last_renewed r.base.last_renewed ≡ true
    → max_renewed r rs ≡ max_renewed best (r ∷ rs)
unfolding max_renewed
max_renewed_later best r rs h = ground arith

max_renewed_earlier :
    (best r : OutRecord) (rs : List OutRecord)
    → ltb best.base.last_renewed r.base.last_renewed ≡ false
    → max_renewed best rs ≡ max_renewed best (r ∷ rs)
unfolding max_renewed
max_renewed_earlier best r rs h = ground arith

-- `m` is one of the records, and renewed last of them.
abbrev IsLatest : OutRecord → List OutRecord → Type 0
IsLatest m rs = IsOneOf m rs × All (λ r. r.base.last_renewed ≤ m.base.last_renewed) rs

max_renewed_lem :
    (best : OutRecord) (rs : List OutRecord) → IsLatest (max_renewed best rs) (best ∷ rs)
unfolding max_renewed
max_renewed_lem best [] = (inl refl, (omega arith, tt))
max_renewed_lem best (r ∷ rs) = elim (Bool-cases (ltb best.base.last_renewed r.base.last_renewed)) [
  | inl later ↦
      let (found, (le, les)) = max_renewed_lem r rs in
      subst (λ m. IsLatest m (best ∷ r ∷ rs)) (max_renewed_later best r rs later)
        (inr found, (omega (arith, ltb→lt _ _ later, le), (le, les)))
  | inr earlier ↦
      let (found, (le, les)) = max_renewed_lem best rs in
      subst (λ m. IsLatest m (best ∷ r ∷ rs)) (max_renewed_earlier best r rs earlier)
        (skip found, (le, (omega (arith, ltb-false→le _ _ earlier, le), les)))
]
  where
    skip : {m : OutRecord} → IsOneOf m (best ∷ rs) → IsOneOf m (best ∷ r ∷ rs)
    skip (inl here) = inl here
    skip (inr there) = inr (inr there)

-- With an out-record there is a last outgoing time, and it is the latest of their renewals.
pub get_last_outgoing_lem :
    {Name : Type 0} (e : Entry Name) (first : OutRecord) (rest : List OutRecord)
    → e.out_records ≡ first ∷ rest
    → (r : OutRecord) × IsOneOf r e.out_records
      × (get_last_outgoing e ≡ some r.base.last_renewed)
      × All (λ o. o.base.last_renewed ≤ r.base.last_renewed) e.out_records
unfolding get_last_outgoing
get_last_outgoing_lem e first rest h =
    let (found, les) = max_renewed_lem first rest in
    (max_renewed first rest, rw h found, rw (h, get_last_outgoing) refl, rw h les)
