-- ===== src/FaceSystem/Lp/Congestion.antt =====
-- daemon/face/generic-link-service.cpp, checkCongestionLevel: the marking of packets while the send
-- queue of the transport is above its threshold.
--
-- A queue length that the transport cannot tell, a negative number, is `none`, and so is the time
-- point max() of the next mark. `interval_after` is the quotient of the base interval by the square
-- root, in floating point, of one more than the number of marks. `now` is the time of the call.
pub mod Marking
use nfd.Base.{
  ℕ, suc, ◌+◌, Bool, true, false, List, [], ◌∷◌, Option, some, none, ltb, leb, if◌then◌else◌,
}

pub record CongestionOptions : Type 0 where
  pub default_congestion_threshold : ℕ
  pub base_congestion_marking_interval : ℕ
  pub interval_after : ℕ → ℕ

pub record CongestionState : Type 0 where
  pub next_mark_time : Option ℕ
  pub n_marked_since_in_marking_state : ℕ
  pub n_congestion_marked : ℕ

abbrev pub no_incident : CongestionState
no_incident = record {
  next_mark_time = none;
  n_marked_since_in_marking_state = 0;
  n_congestion_marked = 0;
}

module _ (options : CongestionOptions) where
  -- The queue is above the threshold: by the time of the next mark.
  abbrev pub check_above : Option ℕ → CongestionState → ℕ → CongestionState × Bool
  check_above none s now =
      (record s { next_mark_time = some (now + options.base_congestion_marking_interval) }, false)
  check_above (some next) s now =
      if leb next now
      then (
        record s {
          next_mark_time =
              some (next + options.interval_after (suc s.n_marked_since_in_marking_state));
          n_marked_since_in_marking_state = suc s.n_marked_since_in_marking_state;
          n_congestion_marked = suc s.n_congestion_marked;
        },
        true,
      )
      else (s, false)

  -- The queue is not above it.
  abbrev pub check_below : Option ℕ → CongestionState → CongestionState × Bool
  check_below none s = (s, false)
  check_below (some next) s =
      (record s { next_mark_time = none; n_marked_since_in_marking_state = 0 }, false)

  -- The state after the call, and whether the packet is marked.
  unfoldable pub check_congestion_level : CongestionState → Option ℕ → ℕ → CongestionState × Bool
  check_congestion_level s none now = (s, false)
  check_congestion_level s (some send_queue_length) now =
      if ltb options.default_congestion_threshold send_queue_length
      then check_above s.next_mark_time s now
      else check_below s.next_mark_time s
