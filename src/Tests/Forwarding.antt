-- ===== src/Tests/Forwarding.antt =====
-- The forwarding algorithms and the retransmission suppression at concrete records.
use nfd.Base.{
  ℕ, ◌*◌, ◌-◌, ◌≡◌, ◌≤◌, ◌<◌, ◌⊎◌, refl, true, false, [], ◌∷◌, Option, some, none, arith, min,
  any_of, All, IsOneOf, length, Bool, ltb, find_if,
}
use nfd.Packet.{Face, local, ad_hoc, NackReason, reason_none, congestion, duplicate, no_route}
use nfd.Fw.ProcessNack.{process_nack, nacks_all, nacks_face, waits}
use nfd.Fw.ProcessNack.Outcomes.{process_nack_lem, NotBelow, n_waiting}
use nfd.Table.Pit.{Entry, OutRecord, new_entry, get_in_record, get_out_record}
use nfd.Table.Fib.{NextHop}
use nfd.Fw.Algorithm.{
  find_duplicate_nonce, is_next_hop_eligible, has_pending_out_records, is_nack_free,
  find_eligible_next_hop_with_earliest_out_record,
}
use nfd.Fw.Algorithm.Nonces.{find_duplicate_nonce_lem, same_in, other_in, same_out, other_out}
use nfd.Fw.Algorithm.Selection.{
  is_next_hop_eligible_sound, find_eligible_next_hop_with_earliest_out_record_lem, IsEarliest,
}
use nfd.Fw.RetxSuppression.{
  RetxSuppressionExponential, decide_per_pit_entry, stored_interval, us, suppress, forward,
}
use nfd.Fw.RetxSuppression.Backoff.{IsConfigured, IsInRange, decide_per_pit_entry_lem}
use nfd.Tests.Data.{app, east, west, names, video}

abbrev sent : OutRecord
sent = record {
  base = record { face = east; last_nonce = 11; last_renewed = 2000; expiry = 4000002000 };
  incoming_nack = none;
  suppression_interval = none;
}

abbrev sent_later : OutRecord
sent_later = record {
  base = record { face = west; last_nonce = 12; last_renewed = 3000; expiry = 4000003000 };
  incoming_nack = none;
  suppression_interval = none;
}

abbrev pending : Entry ℕ
pending = record (new_entry (video 11)) { out_records = sent ∷ sent_later ∷ [] }

find_duplicate_nonce_example : find_duplicate_nonce pending 12 east ≡ record {
  in_same = any_of (same_in 12 east) pending.in_records;
  in_other = any_of (other_in 12 east) pending.in_records;
  out_same = any_of (same_out 12 east) pending.out_records;
  out_other = any_of (other_out 12 east) pending.out_records;
}
find_duplicate_nonce_example = find_duplicate_nonce_lem pending 12 east

abbrev hop : Face → NextHop
hop face = record { face = face; cost = 10 }

eligible : is_next_hop_eligible names app (video 13) pending (hop east) true 5000000000 ≡ true
unfolding is_next_hop_eligible
eligible = refl

is_next_hop_eligible_example :
    ((east.id ≡ app.id) → east.link_type ≡ ad_hoc)
    × ((east.scope ≡ local)
        ⊎ ((names.is_prefix_of 100 7 ≡ false)
            × ((names.is_prefix_of 101 7 ≡ false) ⊎ (app.scope ≡ local))))
    × ((r : OutRecord)
        → true ≡ true
        → get_out_record pending east ≡ some r
        → r.base.expiry ≤ 5000000000)
is_next_hop_eligible_example =
    is_next_hop_eligible_sound names app (video 13) pending (hop east) true 5000000000 eligible

east-record : get_out_record pending east ≡ some sent
unfolding get_out_record
east-record = refl

west-record : get_out_record pending west ≡ some sent_later
unfolding get_out_record
west-record = refl

find_eligible_next_hop_example :
    (res : Option (NextHop × ℕ)) × (find_eligible_next_hop_with_earliest_out_record names app
        (video 13)
        pending
        (hop west ∷ hop east ∷ [])
      ≡ some res)
    × IsEarliest names app (video 13) pending (hop west ∷ hop east ∷ []) res
find_eligible_next_hop_example =
    find_eligible_next_hop_with_earliest_out_record_lem names app (video 13) pending
      (hop west ∷ hop east ∷ [])
      ((λ h. (sent_later, west-record)), ((λ h. (sent, east-record)), tt))

abbrev doubling : RetxSuppressionExponential
doubling = record { initial_interval = 10000; scale = λ d. d * 2; max_interval = 250000 }

doubling-IsConfigured : IsConfigured doubling
doubling-IsConfigured = record {
  positive = omega arith;
  ordered = omega arith;
  grows = λ d. omega arith;
}

pending-has : has_pending_out_records pending 4000 ≡ true
unfolding has_pending_out_records
pending-has = refl

decide_per_pit_entry_example :
    (e' : Entry ℕ) × (d : ℕ) × (r : OutRecord) × (IsInRange doubling (some d)
      × IsOneOf r pending.out_records
      × All (λ o. o.base.last_renewed ≤ r.base.last_renewed) pending.out_records
      × (e' ≡ record pending { suppression_interval = some d })
      × ((4000 - r.base.last_renewed < us (stored_interval doubling none))
            × (decide_per_pit_entry doubling pending 4000 ≡ some (e', suppress))
            × (d ≡ stored_interval doubling none)
          ⊎ (us (stored_interval doubling none) ≤ 4000 - r.base.last_renewed)
            × (decide_per_pit_entry doubling pending 4000 ≡ some (e', forward))
            × (d ≡ min 250000 (stored_interval doubling none * 2))
            × (stored_interval doubling none ≤ d)))
decide_per_pit_entry_example =
    decide_per_pit_entry_lem doubling doubling-IsConfigured pending 4000 pending-has tt

abbrev severity : NackReason → ℕ
severity congestion = 50
severity duplicate = 100
severity no_route = 150
severity reason_none = 1000

abbrev is_less_severe : NackReason → NackReason → Bool
is_less_severe a b = ltb (severity a) (severity b)

abbrev half_nacked : Entry ℕ
half_nacked = record (new_entry (video 11)) {
  in_records = record { base = sent.base; interest = some (video 11) } ∷ [];
  out_records = record sent_later { incoming_nack = some no_route } ∷ sent ∷ [];
}

half_nacked-goes_back : process_nack is_less_severe half_nacked ≡ nacks_face east no_route
unfolding process_nack
half_nacked-goes_back = refl

process_nack_example :
    (least : NackReason) × All
      (NotBelow is_less_severe severity (record { agrees = λ a b. refl }) (severity least))
      half_nacked.out_records
    × (((n_waiting half_nacked.out_records ≡ 0)
          × (process_nack is_less_severe half_nacked ≡ nacks_all least))
        ⊎ ((2 ≤ n_waiting half_nacked.out_records)
            × (process_nack is_less_severe half_nacked ≡ waits))
        ⊎ ((r : OutRecord) × (2 ≤ length half_nacked.out_records)
            × (n_waiting half_nacked.out_records ≡ 1)
            × (find_if is_nack_free half_nacked.out_records ≡ some r)
            × (process_nack is_less_severe half_nacked
                ≡ (elim (get_in_record half_nacked r.base.face) [
                  | none ↦ waits
                  | some _ ↦ nacks_face r.base.face least
                ]))))
process_nack_example =
    process_nack_lem is_less_severe severity (record { agrees = λ a b. refl }) half_nacked
      (omega arith)
