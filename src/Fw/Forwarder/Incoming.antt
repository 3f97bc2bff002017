-- ===== src/Fw/Forwarder/Incoming.antt =====
-- daemon/fw/forwarder.cpp: the pipelines of an incoming Interest, and the lookup in
-- daemon/table/network-region-table.cpp.
--
-- `strategy_of` is StrategyChoice::findEffectiveStrategy, by the name of the Interest. The Interest
-- is one object for the pipelines and for the PIT entry that it makes: when a hop limit is attached
-- after the PIT insertion, the entry's Interest gets it too (`is_new`). A NextHopFaceId is an
-- attribute of the Interest.
use nfd.Base.{
  ℕ, suc, ◌-◌, ◌/◌, max, Bool, true, false, ◌&&◌, not, List, [], ◌∷◌, Option, some, none, any_of,
  find_if, ltb, if◌then◌else◌, is_empty,
}
use nfd.Packet.{Face, Interest, Data, duplicate, is_point_to_point, NameOps}
use nfd.Table.Pit.{InRecord, insert_or_update_in_record}
use nfd.Table.PitTable
use nfd.Table.PitTable.{get}
use nfd.Table.Cs
use nfd.Table.DeadNonceList
use nfd.Fw.Algorithm.{DuplicateNonceWhere, find_duplicate_nonce, is_duplicate}
use nfd.Base.Keyed.{has_key}
use nfd.Fw.Forwarder.{
  Forwarder, Env, FaceEndpoint, send, sent_nack, count, modify_entry, set_expiry_timer,
  on_outgoing_interest, violates_localhost, increment_at, is_zero,
}
use nfd.Fw.Strategy.{Strategy}
use nfd.Fw.Strategy.Base.{in_records_of}

abbrev pub milliseconds_to : ℕ → ℕ → ℕ
milliseconds_to t now = (t - now) / 1000000

-- Whether an Interest is a loop by what the PIT entry knows of its Nonce.
abbrev pub has_duplicate_nonce : DuplicateNonceWhere → Face → Bool
has_duplicate_nonce dnw face =
    is_duplicate dnw && not (is_point_to_point face.link_type && dnw.in_same)

module _ {Name : Type 0} where
  -- NetworkRegionTable::isInProducerRegion
  unfoldable pub is_in_producer_region : NameOps Name → List Name → List Name → Bool
  is_in_producer_region names regions hint =
      any_of (λ region. any_of (λ delegation. names.is_prefix_of delegation region) hint) regions

  -- A hop limit of zero is kept, any other is decremented.
  abbrev pub decrement_hop_limit : Interest Name → Interest Name
  decrement_hop_limit interest = elim interest.hop_limit [
    | none ↦ interest
    | some n ↦ record interest { hop_limit = some (n - 1) }
  ]

  abbrev pub strip_hint : Bool → Interest Name → Interest Name
  strip_hint true interest = record interest { forwarding_hint = [] }
  strip_hint false interest = interest

  unfoldable pub on_interest_loop : Forwarder Name → Interest Name → FaceEndpoint → Forwarder Name
  on_interest_loop fw interest ingress =
      if not (is_point_to_point ingress.face.link_type)
      then fw
      else send (sent_nack ingress.face interest duplicate) fw

  -- The expiry of the in-record that expires last.
  abbrev pub last_expiry : List (InRecord Name) → ℕ
  last_expiry [] = 0
  last_expiry (r ∷ rs) = max r.base.expiry (last_expiry rs)

  abbrev pub entry_has_duplicate : Forwarder Name → ℕ → ℕ → Face → Bool
  entry_has_duplicate fw i nonce face = elim (get fw.pit i) [
    | none ↦ false
    | some s ↦ has_duplicate_nonce (find_duplicate_nonce s.entry nonce face) face
  ]

  -- The Interest of an entry that this Interest made is this Interest.
  abbrev pub share_hop_limit : Bool → Option ℕ → ℕ → Forwarder Name → Forwarder Name
  share_hop_limit true hop_limit i fw =
      modify_entry (λ e. record e { interest = record e.interest { hop_limit = hop_limit } }) i fw
  share_hop_limit false hop_limit i fw = fw

  -- The in-record, and the expiry timer at the time that the last in-record expires.
  unfoldable pub record_pending : Forwarder Name → Interest Name → Face → ℕ → ℕ → Forwarder Name
  unfolding insert_or_update_in_record set_expiry_timer
  record_pending fw interest face i now =
      let recorded = modify_entry (λ e. insert_or_update_in_record e face interest now) i fw in
      set_expiry_timer recorded i (milliseconds_to (last_expiry (in_records_of recorded i)) now) now

  module _ (env : Env Name) (strategy_of : Name → Strategy env) where
    -- The hop limit that is configured, for an Interest without one.
    abbrev pub attach_hop_limit : Interest Name → Interest Name
    attach_hop_limit interest = elim interest.hop_limit [
      | some _ ↦ interest
      | none ↦
          if ltb 0 env.default_hop_limit
          then record interest { hop_limit = some env.default_hop_limit }
          else interest
    ]

    -- The face of a NextHopFaceId, if it is there.
    abbrev pub send_to_next_hop :
        Forwarder Name → Interest Name → ℕ → ℕ → Option Face → Forwarder Name
    send_to_next_hop fw interest i now none = fw
    send_to_next_hop fw interest i now (some face) =
        (on_outgoing_interest env fw interest face i now).0

    -- From the in-record on.
    abbrev pub dispatch_interest :
        Forwarder Name → Interest Name → FaceEndpoint → ℕ → ℕ → Option ℕ → Forwarder Name
    dispatch_interest fw interest ingress i now none =
        (strategy_of interest.name).after_receive_interest fw interest
          (record { face = ingress.face; endpoint = 0 }) i now
    dispatch_interest fw interest ingress i now (some id) =
        send_to_next_hop fw interest i now (find_if (has_key (λ (f : Face). f.id) id) fw.face_table)

    unfoldable pub on_content_store_miss :
        Forwarder Name → Interest Name → FaceEndpoint → ℕ → Bool → ℕ → Forwarder Name
    unfolding record_pending on_outgoing_interest
    on_content_store_miss fw interest ingress i is_new now =
        let interest' = attach_hop_limit interest in
        let counted = count (λ c. record c { n_cs_misses = suc c.n_cs_misses }) fw in
        let attached = share_hop_limit is_new interest'.hop_limit i counted in
        dispatch_interest (record_pending attached interest' ingress.face i now) interest' ingress i
          now interest'.next_hop_face_id

    unfoldable pub on_content_store_hit :
        Forwarder Name → Interest Name → FaceEndpoint → ℕ → Data Name → ℕ → Forwarder Name
    unfolding set_expiry_timer
    on_content_store_hit fw interest ingress i packet now =
        let tagged = record packet { pit_token = interest.pit_token } in
        let counted = count (λ c. record c { n_cs_hits = suc c.n_cs_hits }) fw in
        let satisfied =
          modify_entry
            (λ e. record e { is_satisfied = true; data_freshness_period = packet.freshness_period })
            i counted in
        let timed = set_expiry_timer satisfied i 0 now in
        let strategy = strategy_of interest.name in
        let told =
          strategy.before_satisfy_interest timed tagged
            (record { face = env.cs_face; endpoint = 0 }) i now in
        strategy.after_content_store_hit told tagged ingress i now

    -- The callbacks of a look-up in the Content Store.
    abbrev pub answer_cs :
        Forwarder Name
        → Interest Name
        → FaceEndpoint
        → ℕ
        → Bool
        → ℕ
        → Option (Data Name)
        → Forwarder Name
    answer_cs fw interest ingress i is_new now (some packet) =
        on_content_store_hit fw interest ingress i packet now
    answer_cs fw interest ingress i is_new now none =
        on_content_store_miss fw interest ingress i is_new now

    -- "is pending?": the Content Store is asked when the entry has no in-record.
    abbrev pub look_up_cs :
        Forwarder Name → Interest Name → FaceEndpoint → ℕ → Bool → ℕ → Forwarder Name
    look_up_cs fw interest ingress i is_new now =
        let (cs, answer) = Cs.find env.cs_ops fw.cs interest now in
        answer_cs (record fw { cs = cs }) interest ingress i is_new now answer

    -- From the detection of duplicate Nonces in the PIT entry on.
    abbrev pub process_inserted :
        Forwarder Name → Interest Name → FaceEndpoint → ℕ → Bool → ℕ → Forwarder Name
    process_inserted fw interest ingress i is_new now =
        if entry_has_duplicate fw i interest.nonce ingress.face
        then (strategy_of interest.name).after_receive_looped_interest
            (on_interest_loop fw interest ingress) ingress interest i now
        else if is_empty (in_records_of fw i)
        then look_up_cs fw interest ingress i is_new now
        else on_content_store_miss fw interest ingress i is_new now

    -- From the PIT insertion on.
    unfoldable pub process_interest :
        Forwarder Name → Interest Name → FaceEndpoint → ℕ → Forwarder Name
    unfolding PitTable.insert on_interest_loop on_content_store_miss on_content_store_hit Cs.find
        find_duplicate_nonce
    process_interest fw interest ingress now =
        let (pit, i, is_new) = PitTable.insert env.names env.pit_ops fw.pit interest in
        process_inserted (record fw { pit = pit }) interest ingress i is_new now

    unfoldable pub on_incoming_interest :
        Forwarder Name → Interest Name → FaceEndpoint → ℕ → Forwarder Name
    unfolding process_interest violates_localhost DeadNonceList.has is_in_producer_region
    on_incoming_interest fw interest ingress now =
        let counted = count (λ c. record c { n_in_interests = suc c.n_in_interests }) fw in
        let interest' = decrement_hop_limit interest in
        if is_zero interest.hop_limit
        then record counted {
          n_in_hop_limit_zero = increment_at ingress.face.ref fw.n_in_hop_limit_zero;
        }
        else if violates_localhost env.names ingress.face interest.name
        then counted
        else if DeadNonceList.has env.make_entry fw.dead_nonce_list interest.name interest.nonce
        then on_interest_loop counted interest' ingress
        else process_interest counted
            (strip_hint
              (not (is_empty interest.forwarding_hint)
                && is_in_producer_region env.names fw.network_region_table interest.forwarding_hint)
              interest')
            ingress now
