-- ===== src/Fw/RetxSuppression.antt =====
-- daemon/fw/retx-suppression*.{hpp,cpp}: whether an Interest is new, is to be forwarded or to be
-- suppressed, with an exponential back-off or a fixed interval.
--
-- `scale` is the product of a duration with the multiplier, a `float`, cast back to microseconds;
-- times are nanoseconds. The suppression interval is the strategy information that the back-off
-- stores on a PIT entry or on an out-record. The outer `none` is a dereferenced `end()`.
pub mod Backoff
use nfd.Base.{ℕ, ◌-◌, ◌*◌, min, ◌≡◌, Bool, not, Option, some, none, ltb, if◌then◌else◌, update_if}
use nfd.Base.Keyed.{has_key}
use nfd.Packet.{Face, ms}
use nfd.Table.Pit.{Entry, OutRecord, out_face, get_out_record}
use nfd.Fw.Algorithm.{has_pending_out_records, get_last_outgoing}

pub data RetxSuppressionResult : Type 0 where
  new forward suppress : RetxSuppressionResult

-- Microseconds in nanoseconds.
abbrev pub us : ℕ → ℕ
us n = n * 1000

pub record RetxSuppressionExponential : Type 0 where
  pub initial_interval : ℕ
  pub scale : ℕ → ℕ
  pub max_interval : ℕ

-- `insertStrategyInfo<PitInfo>(m_initialInterval)`: the item that is there, or a new one.
abbrev pub stored_interval : RetxSuppressionExponential → Option ℕ → ℕ
stored_interval s none = s.initial_interval
stored_interval s (some interval) = interval

abbrev pub next_interval : RetxSuppressionExponential → ℕ → ℕ
next_interval s interval = min s.max_interval (s.scale interval)

module _ {Name : Type 0} (s : RetxSuppressionExponential) where
  unfoldable pub decide_per_pit_entry : Entry Name → ℕ → Option (Entry Name × RetxSuppressionResult)
  unfolding has_pending_out_records get_last_outgoing
  decide_per_pit_entry e now =
      if not (has_pending_out_records e now) then some (e, new) else elim (get_last_outgoing e) [
        | none ↦ none
        | some last_outgoing ↦
            let interval = stored_interval s e.suppression_interval in
            some (
              if ltb (now - last_outgoing) (us interval)
              then (record e { suppression_interval = some interval }, suppress)
              else (record e { suppression_interval = some (next_interval s interval) }, forward))
      ]

  unfoldable pub decide_per_upstream : Entry Name → Face → ℕ → Entry Name × RetxSuppressionResult
  unfolding get_out_record
  decide_per_upstream e face now = elim (get_out_record e face) [
    | none ↦ (e, new)
    | some r ↦
        let interval = stored_interval s r.suppression_interval in
        let e' = record e {
          out_records =
              update_if (has_key out_face face.ref)
                (λ o. record o { suppression_interval = some interval }) e.out_records;
        } in
        (e', if ltb (now - r.base.last_renewed) (us interval) then suppress else forward)
  ]

unfoldable pub increment_interval_for_out_record :
    RetxSuppressionExponential → OutRecord → OutRecord
increment_interval_for_out_record s r = record r {
  suppression_interval = some (next_interval s (stored_interval s r.suppression_interval));
}

-- RetxSuppressionFixed, with its interval in milliseconds.
unfoldable pub decide_fixed : {Name : Type 0} → ℕ → Entry Name → ℕ → Option RetxSuppressionResult
unfolding has_pending_out_records get_last_outgoing
decide_fixed interval e now =
    if not (has_pending_out_records e now) then some new else elim (get_last_outgoing e) [
      | none ↦ none
      | some last_outgoing ↦
          some (if ltb (now - last_outgoing) (ms interval) then suppress else forward)
    ]
