-- ===== src/Fw/Algorithm.antt =====
-- daemon/fw/algorithm.{hpp,cpp}: what the pipelines and the strategies ask of a PIT entry and of
-- next hops.
--
-- The flags of `DuplicateNonceWhere` are a record of Booleans: `|=` sets one, NONE is all false.
-- `none` stands for the iterator `end()` and for TimePoint::max(). Dereferencing `end()`, which
-- the source excludes by an assertion, gives `none`.
pub mod Nonces
pub mod Selection
use nfd.Base.{
  ℕ, ◌≡◌, Bool, true, false, ◌&&◌, ◌||◌, not, List, [], ◌∷◌, Option, some, none, any_of, ltb, leb,
  ◌==◌, if◌then◌else◌,
}
use nfd.Packet.{Face, Interest, NameOps, same_face, is_local, is_ad_hoc, NackReason}
use nfd.Table.Pit.{Entry, InRecord, OutRecord, FaceRecord, get_out_record}
use nfd.Table.Fib.{NextHop}

pub record DuplicateNonceWhere : Type 0 where
  pub in_same : Bool
  pub in_other : Bool
  pub out_same : Bool
  pub out_other : Bool

abbrev pub duplicate_nonce_none : DuplicateNonceWhere
duplicate_nonce_none = record {
  in_same = false;
  in_other = false;
  out_same = false;
  out_other = false;
}

abbrev pub is_duplicate : DuplicateNonceWhere → Bool
is_duplicate d = d.in_same || d.in_other || d.out_same || d.out_other

abbrev pub is_nack_free : OutRecord → Bool
is_nack_free r = elim r.incoming_nack [ none ↦ true | some _ ↦ false ]

module _ {Name : Type 0} where
  unfoldable pub would_violate_scope : NameOps Name → Face → Interest Name → Face → Bool
  would_violate_scope ops in_face interest out_face =
      if is_local out_face.scope
      then false
      else if ops.is_prefix_of ops.localhost interest.name
      then true
      else if ops.is_prefix_of ops.localhop interest.name
      then not (is_local in_face.scope)
      else false

  -- The loop over the in-records.
  unfoldable pub scan_in_records :
      ℕ → Face → List (InRecord Name) → DuplicateNonceWhere → DuplicateNonceWhere
  scan_in_records nonce face [] d = d
  scan_in_records nonce face (r ∷ rs) d = scan_in_records nonce face rs (
      if r.base.last_nonce == nonce
      then (if same_face r.base.face face
          then record d { in_same = true }
          else record d { in_other = true })
      else d)

  unfoldable pub has_pending_out_records : Entry Name → ℕ → Bool
  has_pending_out_records e now =
      any_of (λ r. leb now r.base.expiry && is_nack_free r) e.out_records

-- The loop over the out-records.
unfoldable pub scan_out_records :
    ℕ → Face → List OutRecord → DuplicateNonceWhere → DuplicateNonceWhere
scan_out_records nonce face [] d = d
scan_out_records nonce face (r ∷ rs) d = scan_out_records nonce face rs (
    if r.base.last_nonce == nonce
    then (if same_face r.base.face face
        then record d { out_same = true }
        else record d { out_other = true })
    else d)

-- `std::max_element` by the time of the last renewal: the first of the largest.
unfoldable pub max_renewed : OutRecord → List OutRecord → OutRecord
max_renewed best [] = best
max_renewed best (r ∷ rs) =
    max_renewed (if ltb best.base.last_renewed r.base.last_renewed then r else best) rs

module _ {Name : Type 0} where
  unfoldable pub find_duplicate_nonce : Entry Name → ℕ → Face → DuplicateNonceWhere
  unfolding scan_in_records scan_out_records
  find_duplicate_nonce e nonce face =
      scan_out_records nonce face e.out_records
        (scan_in_records nonce face e.in_records duplicate_nonce_none)

  unfoldable pub get_last_outgoing : Entry Name → Option ℕ
  unfolding max_renewed
  get_last_outgoing e = elim e.out_records [
    | [] ↦ none
    | r ∷ rs ↦ some (max_renewed r rs).base.last_renewed
  ]

  module _ (ops : NameOps Name) (in_face : Face) (interest : Interest Name) (e : Entry Name) where
    unfoldable pub is_next_hop_eligible : NextHop → Bool → ℕ → Bool
    unfolding would_violate_scope get_out_record
    is_next_hop_eligible hop want_unused now =
        if (hop.face.id == in_face.id && not (is_ad_hoc hop.face.link_type))
          || would_violate_scope ops in_face interest hop.face
        then false
        else if want_unused
        then (elim (get_out_record e hop.face) [
          | none ↦ true
          | some r ↦ not (ltb now r.base.expiry)
        ])
        else true

    -- `lastRenewed < earliestRenewed`.
    abbrev pub is_earlier : ℕ → Option (NextHop × ℕ) → Bool
    is_earlier t none = true
    is_earlier t (some (_, earliest)) = ltb t earliest

    -- The loop over the next hops, from the best one so far.
    unfoldable pub earliest_loop :
        List NextHop → Option (NextHop × ℕ) → Option (Option (NextHop × ℕ))
    unfolding is_next_hop_eligible
    earliest_loop [] best = some best
    earliest_loop (hop ∷ hops) best =
        let skip = earliest_loop hops best in
        if not (is_next_hop_eligible hop false 0) then skip else elim (get_out_record e hop.face) [
          | none ↦ none
          | some r ↦ earliest_loop hops (
              if is_earlier r.base.last_renewed best then some (hop, r.base.last_renewed) else best)
        ]

    unfoldable pub find_eligible_next_hop_with_earliest_out_record :
        List NextHop → Option (Option (NextHop × ℕ))
    unfolding earliest_loop
    find_eligible_next_hop_with_earliest_out_record hops = earliest_loop hops none
