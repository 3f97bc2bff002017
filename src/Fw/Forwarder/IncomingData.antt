-- ===== src/Fw/Forwarder/IncomingData.antt =====
-- daemon/fw/forwarder.cpp: the pipelines of incoming Data and of an incoming Nack.
--
-- `strategy_of` is StrategyChoice::findEffectiveStrategy, by the name of the Interest of the entry.
-- A `multimap` from downstreams to entries is the list of its pairs.
use nfd.Base.{
  ℕ, suc, Bool, true, false, ◌&&◌, not, List, [], ◌∷◌, ◌++◌, Option, some, none, any_of, ◌==◌,
  if◌then◌else◌, is_empty, update_if,
}
use nfd.Base.Keyed.{has_key}
use nfd.Packet.{Face, Data, Nack, is_point_to_point, is_ad_hoc}
use nfd.Table.Pit.{
  Entry, OutRecord, delete_in_record, delete_out_record, get_out_record, set_incoming_nack,
  out_face,
}
use nfd.Table.PitTable
use nfd.Table.PitTable.{Stored, get}
use nfd.Table.Cs
use nfd.Fw.Algorithm.{has_pending_out_records}
use nfd.Fw.UnsolicitedData.{decide, is_cache}
use nfd.Fw.Forwarder.{
  Forwarder, Env, FaceEndpoint, count, modify_entry, set_expiry_timer, on_outgoing_data,
  insert_dead_nonce_list, violates_localhost,
}
use nfd.Fw.Strategy.{Strategy, Downstreams, same_endpoint}
use nfd.Fw.Strategy.Base.{in_records_of, close_down}

abbrev pub pairs_with : ℕ → List FaceEndpoint → List (FaceEndpoint × ℕ)
pairs_with i [] = []
pairs_with i (d ∷ ds) = (d, i) ∷ pairs_with i ds

module _ {Name : Type 0} where
  module _ (env : Env Name) (strategy_of : Name → Strategy env) where
    unfoldable pub on_data_unsolicited :
        Forwarder Name → Data Name → FaceEndpoint → ℕ → Forwarder Name
    unfolding Cs.insert decide
    on_data_unsolicited fw packet ingress now =
        let cached =
          if is_cache (decide env.unsolicited_data_policy ingress.face)
          then record fw { cs = Cs.insert env.cs_ops fw.cs packet true now }
          else fw in
        count (λ c. record c { n_unsolicited_data = suc c.n_unsolicited_data }) cached

    abbrev pub delete_in_records : List FaceEndpoint → Entry Name → Entry Name
    delete_in_records [] e = e
    delete_in_records (d ∷ ds) e = delete_in_records ds (delete_in_record e d.face)

    -- The Nonce of the out-record of the face that the Data comes from.
    abbrev pub add_entry_nonce : Forwarder Name → Face → Option (Stored Name) → Forwarder Name
    add_entry_nonce fw upstream none = fw
    add_entry_nonce fw upstream (some s) = insert_dead_nonce_list env fw s.entry (some upstream)

    -- What is done with one entry that the Data matches, once the strategy has chosen.
    abbrev pub satisfy_entry :
        Forwarder Name → ℕ → Data Name → FaceEndpoint → Downstreams → ℕ → Forwarder Name
    satisfy_entry fw i packet ingress chosen now =
        let closed = if is_empty chosen.unsatisfied then close_down fw i now else fw in
        modify_entry
          (λ e.
            delete_out_record
              (delete_in_records chosen.satisfied
                (record e { data_freshness_period = packet.freshness_period }))
              ingress.face)
          i (add_entry_nonce closed ingress.face (get closed.pit i))

    -- The name of an entry that is there.
    abbrev pub strategy_at : Forwarder Name → Data Name → ℕ → Strategy env
    strategy_at fw packet i = elim (get fw.pit i) [
      | none ↦ strategy_of packet.name
      | some s ↦ strategy_of s.entry.interest.name
    ]

    -- The loop over the entries that the Data matches: the forwarder, the downstreams satisfied,
    -- and the pairs of an unsatisfied downstream and its entry.
    unfoldable pub match_loop :
        List ℕ
        → Forwarder Name
        → Data Name
        → FaceEndpoint
        → List FaceEndpoint
        → ℕ
        → Forwarder Name × List FaceEndpoint × List (FaceEndpoint × ℕ)
    unfolding insert_dead_nonce_list delete_in_record delete_out_record set_expiry_timer
    match_loop [] fw packet ingress satisfied now = (fw, satisfied, [])
    match_loop (i ∷ is) fw packet ingress satisfied now =
        let (told, chosen) =
          (strategy_at fw packet i).satisfy_interest fw i ingress packet
            (record { satisfied = satisfied; unsatisfied = [] }) now in
        let (last, all, pairs) =
          match_loop is (satisfy_entry told i packet ingress chosen now) packet ingress
            chosen.satisfied now in
        (last, all, pairs_with i chosen.unsatisfied ++ pairs)

    -- The unsatisfied downstreams that another entry satisfies.
    unfoldable pub unsatisfied_loop :
        List (FaceEndpoint × ℕ) → Forwarder Name → List FaceEndpoint → ℕ → Forwarder Name
    unfolding delete_in_record set_expiry_timer
    unsatisfied_loop [] fw satisfied now = fw
    unsatisfied_loop ((d, i) ∷ pairs) fw satisfied now =
        let deleted = modify_entry (λ e. delete_in_record e d.face) i fw in
        unsatisfied_loop pairs
          (if any_of (same_endpoint d) satisfied
            then (if is_empty (in_records_of deleted i) then close_down deleted i now else deleted)
            else fw)
          satisfied now

    abbrev pub is_ingress : FaceEndpoint → FaceEndpoint → Bool
    is_ingress ingress d =
        d.face.id == ingress.face.id
        && d.endpoint == ingress.endpoint
        && not (is_ad_hoc d.face.link_type)

    -- "foreach pending downstream".
    unfoldable pub send_loop :
        List FaceEndpoint → Forwarder Name → Data Name → FaceEndpoint → Forwarder Name
    unfolding on_outgoing_data
    send_loop [] fw packet ingress = fw
    send_loop (d ∷ ds) fw packet ingress =
        send_loop ds
          (if is_ingress ingress d then fw else (on_outgoing_data env fw packet d.face).0) packet
          ingress

    -- From the insertion into the Content Store on.
    unfoldable pub satisfy_matches :
        List ℕ → Forwarder Name → Data Name → FaceEndpoint → ℕ → Forwarder Name
    unfolding Cs.insert match_loop unsatisfied_loop send_loop
    satisfy_matches matches fw packet ingress now =
        let cached = record fw { cs = Cs.insert env.cs_ops fw.cs packet false now } in
        let (matched, satisfied, pairs) = match_loop matches cached packet ingress [] now in
        send_loop satisfied (unsatisfied_loop pairs matched satisfied now) packet ingress

    unfoldable pub on_incoming_data : Forwarder Name → Data Name → FaceEndpoint → ℕ → Forwarder Name
    unfolding satisfy_matches on_data_unsolicited violates_localhost PitTable.find_all_data_matches
    on_incoming_data fw packet ingress now =
        let counted = count (λ c. record c { n_in_data = suc c.n_in_data }) fw in
        let matches = PitTable.find_all_data_matches env.names env.pit_ops fw.pit packet in
        if violates_localhost env.names ingress.face packet.name
        then counted
        else if is_empty matches
        then on_data_unsolicited counted packet ingress now
        else satisfy_matches matches counted packet ingress now

    -- `setIncomingNack` on the out-record of a face.
    abbrev pub record_nack : Nack Name → Face → Entry Name → Entry Name
    record_nack nack face e = record e {
      out_records =
          update_if (has_key out_face face.ref) (λ r. (set_incoming_nack r nack).0) e.out_records;
    }

    -- The timer is set to now when no out-record is pending.
    abbrev pub expire_nacked : Forwarder Name → ℕ → ℕ → Option (Stored Name) → Forwarder Name
    expire_nacked fw i now none = fw
    expire_nacked fw i now (some s) =
        if has_pending_out_records s.entry now then fw else set_expiry_timer fw i 0 now

    -- From the Nack on the out-record on.
    abbrev pub accept_nack : Forwarder Name → Nack Name → FaceEndpoint → ℕ → ℕ → Forwarder Name
    accept_nack fw nack ingress i now =
        let recorded = modify_entry (record_nack nack ingress.face) i fw in
        (strategy_of nack.interest.name).after_receive_nack
          (expire_nacked recorded i now (get recorded.pit i)) nack ingress i now

    -- The out-record of the face that the Nack comes from.
    abbrev pub nacked_record : Forwarder Name → Nack Name → Face → Option (ℕ × OutRecord)
    nacked_record fw nack face = elim (PitTable.find env.names env.pit_ops fw.pit nack.interest) [
      | none ↦ none
      | some i ↦ elim (get fw.pit i) [
        | none ↦ none
        | some s ↦ elim (get_out_record s.entry face) [ none ↦ none | some r ↦ some (i, r) ]
      ]
    ]

    -- The checks on the out-record and its Nonce.
    abbrev pub check_nack :
        Forwarder Name → Nack Name → FaceEndpoint → ℕ → Option (ℕ × OutRecord) → Forwarder Name
    check_nack fw nack ingress now none = fw
    check_nack fw nack ingress now (some (i, r)) =
        if nack.interest.nonce == r.base.last_nonce then accept_nack fw nack ingress i now else fw

    unfoldable pub on_incoming_nack : Forwarder Name → Nack Name → FaceEndpoint → ℕ → Forwarder Name
    unfolding set_incoming_nack has_pending_out_records set_expiry_timer PitTable.find
        get_out_record
    on_incoming_nack fw nack ingress now =
        let counted = count (λ c. record c { n_in_nacks = suc c.n_in_nacks }) fw in
        if not (is_point_to_point ingress.face.link_type)
        then counted
        else check_nack counted nack ingress now (nacked_record counted nack ingress.face)
