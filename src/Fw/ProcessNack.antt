-- ===== src/Fw/ProcessNack.antt =====
-- daemon/fw/process-nack-traits.{hpp,cpp}: what a strategy does with a Nack, given the Nacks that
-- the out-records of the PIT entry hold.
--
-- `is_less_severe` is lp::isLessSevere of ndn-cxx. The calls of the strategy that send Nacks are
-- the values of `Decision`.
pub mod Outcomes
use nfd.Base.{
  ℕ, suc, ◌≡◌, Bool, true, false, List, [], ◌∷◌, Option, some, none, ltb, ◌==◌, if◌then◌else◌,
}
use nfd.Packet.{Face, NackReason, reason_none}
use nfd.Table.Pit.{Entry, OutRecord, get_in_record}

pub data Decision : Type 0 where
  nacks_face : Face → NackReason → Decision
  waits : Decision
  nacks_all : NackReason → Decision

-- The variables of the loop.
pub record Scan : Type 0 where
  pub n_out_records_not_nacked : ℕ
  pub last_face_not_nacked : Option Face
  pub least_severe_reason : NackReason

abbrev pub initial_scan : Scan
initial_scan = record {
  n_out_records_not_nacked = 0;
  last_face_not_nacked = none;
  least_severe_reason = reason_none;
}

module _ (is_less_severe : NackReason → NackReason → Bool) where
  -- The body of the loop, for an out-record of a face with its incoming Nack.
  abbrev pub scan_record : Option NackReason → Face → Scan → Scan
  scan_record none face s = record s {
    n_out_records_not_nacked = suc s.n_out_records_not_nacked;
    last_face_not_nacked = some face;
  }
  scan_record (some reason) face s =
      if is_less_severe reason s.least_severe_reason
      then record s { least_severe_reason = reason }
      else s

  -- The loop over the out-records.
  unfoldable pub scan_loop : List OutRecord → Scan → Scan
  scan_loop [] s = s
  scan_loop (r ∷ rs) s = scan_loop rs (scan_record r.incoming_nack r.base.face s)

  abbrev pub scan : List OutRecord → Scan
  scan out_records = scan_loop out_records initial_scan

  module _ {Name : Type 0} where
    abbrev pub is_downstream : Entry Name → Option Face → Bool
    is_downstream e none = false
    is_downstream e (some face) = elim (get_in_record e face) [ none ↦ false | some _ ↦ true ]

    abbrev pub decide : Entry Name → Scan → Option Face → Decision
    decide e s none =
        if ltb 0 s.n_out_records_not_nacked then waits else nacks_all s.least_severe_reason
    decide e s (some face) =
        if s.n_out_records_not_nacked == 1
        then (elim (get_in_record e face) [
          | none ↦ waits
          | some _ ↦ nacks_face face s.least_severe_reason
        ])
        else if ltb 0 s.n_out_records_not_nacked
        then waits
        else nacks_all s.least_severe_reason

    unfoldable pub process_nack : Entry Name → Decision
    unfolding scan_loop get_in_record
    process_nack e = decide e (scan e.out_records) (scan e.out_records).last_face_not_nacked
