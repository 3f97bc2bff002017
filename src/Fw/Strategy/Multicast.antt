-- ===== src/Fw/Strategy/Multicast.antt =====
-- daemon/fw/multicast-strategy.{hpp,cpp}: the strategy that sends to every eligible next hop.
pub mod Actions
use nfd.Base.{
  ℕ, Bool, true, false, not, List, [], ◌∷◌, Option, some, none, update_if, any_of, if◌then◌else◌,
}
use nfd.Base.Keyed.{has_key}
use nfd.Packet.{Face, Interest}
use nfd.Table.Pit.{Entry, InRecord, out_face}
use nfd.Table.PitTable.{Stored, get}
use nfd.Table.Fib.{NextHop}
use nfd.Fw.Algorithm.{is_next_hop_eligible}
use nfd.Fw.RetxSuppression.{
  RetxSuppressionExponential, RetxSuppressionResult, new, forward, suppress, decide_per_upstream,
  increment_interval_for_out_record,
}
use nfd.Fw.Forwarder.{Forwarder, Env, FaceEndpoint, modify_entry}
use nfd.Fw.Strategy.Base.{send_interest}
use nfd.Fw.Strategy.Lookup.{lookup_fib}

module _ {Name : Type 0} (env : Env Name) (retx : RetxSuppressionExponential) where
  -- `incrementIntervalForOutRecord` on the out-record of a face.
  abbrev pub increment_interval : Face → Entry Name → Entry Name
  increment_interval face e = record e {
    out_records =
        update_if (has_key out_face face.ref) (increment_interval_for_out_record retx)
          e.out_records;
  }

  abbrev pub increment_sent :
      Face → ℕ → RetxSuppressionResult → Forwarder Name × Bool → Forwarder Name
  increment_sent face i forward (fw, true) = modify_entry (increment_interval face) i fw
  increment_sent face i forward (fw, false) = fw
  increment_sent face i new (fw, sent) = fw
  increment_sent face i suppress (fw, sent) = fw

  -- The body of the loop, with the entry and the decision of the suppression.
  abbrev pub send_upstream :
      Forwarder Name
      → Interest Name
      → Face
      → NextHop
      → Entry Name
      → ℕ
      → ℕ
      → RetxSuppressionResult
      → Forwarder Name
  send_upstream fw interest in_face hop e i now suppress = fw
  send_upstream fw interest in_face hop e i now new =
      if not (is_next_hop_eligible env.names in_face interest e hop false 0)
      then fw
      else increment_sent hop.face i new (send_interest env fw interest hop.face i now)
  send_upstream fw interest in_face hop e i now forward =
      if not (is_next_hop_eligible env.names in_face interest e hop false 0)
      then fw
      else increment_sent hop.face i forward (send_interest env fw interest hop.face i now)

  abbrev pub send_hop :
      Forwarder Name
      → Interest Name
      → Face
      → NextHop
      → ℕ
      → ℕ
      → Option (Stored Name)
      → Forwarder Name
  send_hop fw interest in_face hop i now none = fw
  send_hop fw interest in_face hop i now (some s) =
      let (e, result) = decide_per_upstream retx s.entry hop.face now in
      send_upstream (modify_entry (λ e. (decide_per_upstream retx e hop.face now).0) i fw) interest
        in_face hop e i now result

  unfoldable pub hop_loop :
      List NextHop → Forwarder Name → Interest Name → Face → ℕ → ℕ → Forwarder Name
  unfolding decide_per_upstream is_next_hop_eligible send_interest increment_interval_for_out_record
  hop_loop [] fw interest in_face i now = fw
  hop_loop (hop ∷ hops) fw interest in_face i now =
      hop_loop hops (send_hop fw interest in_face hop i now (get fw.pit i)) interest in_face i now

  abbrev pub multicast_entry :
      Forwarder Name → Interest Name → Face → ℕ → ℕ → Option (Stored Name) → Forwarder Name
  multicast_entry fw interest in_face i now none = fw
  multicast_entry fw interest in_face i now (some s) =
      hop_loop (lookup_fib env fw s.entry).next_hops fw interest in_face i now

  unfoldable pub after_receive_interest :
      Forwarder Name → Interest Name → FaceEndpoint → ℕ → ℕ → Forwarder Name
  unfolding hop_loop lookup_fib
  after_receive_interest fw interest ingress i now =
      multicast_entry fw interest ingress.face i now (get fw.pit i)

  -- Whether some in-record's face is one that the next hop is eligible for.
  abbrev pub is_eligible_for_any : Entry Name → NextHop → Bool
  is_eligible_for_any e hop =
      any_of (λ r. is_next_hop_eligible env.names r.base.face e.interest e hop false 0) e.in_records

  abbrev pub send_new_hop : Forwarder Name → NextHop → ℕ → ℕ → Option (Stored Name) → Forwarder Name
  send_new_hop fw hop i now none = fw
  send_new_hop fw hop i now (some s) =
      if is_eligible_for_any s.entry hop
      then (send_interest env fw s.entry.interest hop.face i now).0
      else fw

  unfoldable pub after_new_next_hop : Forwarder Name → NextHop → ℕ → ℕ → Forwarder Name
  unfolding is_next_hop_eligible send_interest
  after_new_next_hop fw hop i now = send_new_hop fw hop i now (get fw.pit i)
