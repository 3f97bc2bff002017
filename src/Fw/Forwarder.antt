-- ===== src/Fw/Forwarder.antt =====
-- daemon/fw/forwarder.{hpp,cpp}: the state of the forwarder and its outgoing pipelines.
--
-- `sent` is the log of what the faces were given to send and of the removals of faces, the latest
-- first. `setId` with INVALID_FACEID is the only write to the identifier of a face that is in use:
-- a face has the identifier that its record says until its removal is in the log. The counters of a
-- face for a hop limit of zero are functions of the face. `Env` holds what does not change: the
-- parameters of the tables, the configured hop limit (0 for none), the policy for unsolicited Data
-- and the face of the Content Store. A PIT entry is an identity, as in Table.PitTable. The expiry
-- timer of an entry is the time at which it is due. Two fields of FaceEndpoint that no pipeline
-- reads, the signals to tests and the tag with the incoming face are left out. `now` is the steady
-- clock.
pub mod Incoming
pub mod IncomingData
pub mod Invariant
pub mod NewNextHop
pub mod Run
pub mod Drops
pub mod Delivery
use nfd.Base.{
  ℕ, suc, ◌+◌, Bool, true, false, ◌&&◌, not, List, [], ◌∷◌, Option, some, none, ◌==◌, ltb, find_if,
  if◌then◌else◌,
}
use nfd.Packet.{
  Face, Interest, Data, NackReason, NameOps, is_non_local, is_point_to_point, invalid_face_id, ms,
  LinkType,
}
use nfd.Table.Pit.{
  Entry, OutRecord, get_in_record, get_out_record, insert_or_update_out_record, delete_in_record,
}
use nfd.Table.PitTable.{Pit, PitOps, Stored, get, modify, erase}
use nfd.Table.Fib.{NextHop}
use nfd.Table.FibTable.{Fib}
use nfd.Table.Cs.{Cs, CsOps}
use nfd.Fw.UnsolicitedData.{UnsolicitedDataPolicy}
use nfd.Table.DeadNonceList.{DeadNonceList, add}

pub record FaceEndpoint : Type 0 where
  pub face : Face
  pub endpoint : ℕ

pub data Sent (Name : Type 0) : Type 0 where
  sent_interest : Face → Interest Name → Sent Name
  sent_data : Face → Data Name → Sent Name
  sent_nack : Face → Interest Name → NackReason → Sent Name
  removed_face : Face → Sent Name

-- `getId` of a face, after what the log says.
abbrev pub id_in : {Name : Type 0} → List (Sent Name) → Face → ℕ
id_in [] face = face.id
id_in (removed_face removed ∷ log) face =
    if removed.ref == face.ref then invalid_face_id else id_in log face
id_in (sent_interest egress interest ∷ log) face = id_in log face
id_in (sent_data egress packet ∷ log) face = id_in log face
id_in (sent_nack egress interest reason ∷ log) face = id_in log face

pub record ForwarderCounters : Type 0 where
  pub n_in_interests : ℕ
  pub n_out_interests : ℕ
  pub n_in_data : ℕ
  pub n_out_data : ℕ
  pub n_in_nacks : ℕ
  pub n_out_nacks : ℕ
  pub n_satisfied_interests : ℕ
  pub n_unsatisfied_interests : ℕ
  pub n_unsolicited_data : ℕ
  pub n_cs_hits : ℕ
  pub n_cs_misses : ℕ

pub record Forwarder (Name : Type 0) : Type 0 where
  pub counters : ForwarderCounters
  pub n_in_hop_limit_zero : ℕ → ℕ
  pub n_out_hop_limit_zero : ℕ → ℕ
  pub face_table : List Face
  pub fib : Fib Name
  pub pit : Pit Name
  pub cs : Cs Name
  pub dead_nonce_list : DeadNonceList
  pub network_region_table : List Name
  pub sent : List (Sent Name)

pub record Env (Name : Type 0) : Type 0 where
  pub names : NameOps Name
  pub pit_ops : PitOps Name
  pub cs_ops : CsOps Name
  pub sort_next_hops : List NextHop → List NextHop
  pub make_entry : Name → ℕ → ℕ
  pub default_hop_limit : ℕ
  pub unsolicited_data_policy : UnsolicitedDataPolicy
  pub cs_face : Face

-- `++` on the counter of a face.
abbrev pub increment_at : ℕ → (ℕ → ℕ) → ℕ → ℕ
increment_at ref counts r = if r == ref then suc (counts r) else counts r

abbrev pub is_zero : Option ℕ → Bool
is_zero none = false
is_zero (some n) = n == 0

module _ {Name : Type 0} where
  abbrev pub send : Sent Name → Forwarder Name → Forwarder Name
  send packet fw = record fw { sent = packet ∷ fw.sent }

  abbrev pub count : (ForwarderCounters → ForwarderCounters) → Forwarder Name → Forwarder Name
  count f fw = record fw { counters = f fw.counters }

  -- A write to a PIT entry.
  abbrev pub modify_entry : (Entry Name → Entry Name) → ℕ → Forwarder Name → Forwarder Name
  modify_entry f i fw = record fw { pit = modify f i fw.pit }

  -- The duration is in milliseconds.
  unfoldable pub set_expiry_timer : Forwarder Name → ℕ → ℕ → ℕ → Forwarder Name
  set_expiry_timer fw i duration now =
      modify_entry (λ e. record e { expiry_timer = some (now + ms duration) }) i fw

  unfoldable pub violates_localhost : NameOps Name → Face → Name → Bool
  violates_localhost names face name =
      is_non_local face.scope && names.is_prefix_of names.localhost name

  module _ (env : Env Name) where
    -- The forwarder after the call, and whether there is an out-record to return.
    unfoldable pub on_outgoing_interest :
        Forwarder Name → Interest Name → Face → ℕ → ℕ → Forwarder Name × Bool
    unfolding insert_or_update_out_record
    on_outgoing_interest fw interest egress i now =
        if is_zero interest.hop_limit && is_non_local egress.scope
        then (
          record fw { n_out_hop_limit_zero = increment_at egress.ref fw.n_out_hop_limit_zero },
          false,
        )
        else (
          count (λ c. record c { n_out_interests = suc c.n_out_interests })
              (send (sent_interest egress interest)
                (modify_entry (λ e. insert_or_update_out_record e egress interest now) i fw)),
          true,
        )

    unfoldable pub on_outgoing_data : Forwarder Name → Data Name → Face → Forwarder Name × Bool
    unfolding violates_localhost
    on_outgoing_data fw packet egress =
        if id_in fw.sent egress == invalid_face_id
        then (fw, false)
        else if violates_localhost env.names egress packet.name
        then (fw, false)
        else (
          count (λ c. record c { n_out_data = suc c.n_out_data })
              (send (sent_data egress packet) fw),
          true,
        )

    -- The Nack of the in-record's Interest, if there is an in-record.
    abbrev pub nack_in_record :
        Forwarder Name → NackReason → Face → ℕ → Option (Interest Name) → Forwarder Name × Bool
    nack_in_record fw reason egress i none = (fw, false)
    nack_in_record fw reason egress i (some interest) =
        if not (is_point_to_point egress.link_type) then (fw, false) else (
          count (λ c. record c { n_out_nacks = suc c.n_out_nacks })
              (send (sent_nack egress interest reason)
                (modify_entry (λ e. delete_in_record e egress) i fw)),
          true,
        )

    -- The Interest of the in-record of a face in a PIT entry.
    abbrev pub pending_interest : Forwarder Name → ℕ → Face → Option (Interest Name)
    pending_interest fw i egress = elim (get fw.pit i) [
      | none ↦ none
      | some s ↦ elim (get_in_record s.entry egress) [ none ↦ none | some r ↦ r.interest ]
    ]

    unfoldable pub on_outgoing_nack : Forwarder Name → NackReason → Face → ℕ → Forwarder Name × Bool
    unfolding get_in_record delete_in_record
    on_outgoing_nack fw reason egress i =
        if id_in fw.sent egress == invalid_face_id
        then (fw, false)
        else nack_in_record fw reason egress i (pending_interest fw i egress)

    abbrev pub needs_dead_nonce_list : Forwarder Name → Entry Name → Bool
    needs_dead_nonce_list fw e =
        if e.is_satisfied
        then e.interest.must_be_fresh
          && ltb (ms e.data_freshness_period) fw.dead_nonce_list.lifetime
        else true

    abbrev pub add_nonces : Name → List OutRecord → DeadNonceList → DeadNonceList
    add_nonces name [] d = d
    add_nonces name (r ∷ rs) d = add_nonces name rs (add env.make_entry d name r.base.last_nonce)

    -- `none` is the null pointer: all upstreams.
    abbrev pub out_records_of : Entry Name → Option Face → List OutRecord
    out_records_of e none = e.out_records
    out_records_of e (some upstream) = elim (get_out_record e upstream) [
      | none ↦ []
      | some r ↦ r ∷ []
    ]

    unfoldable pub insert_dead_nonce_list :
        Forwarder Name → Entry Name → Option Face → Forwarder Name
    unfolding add get_out_record
    insert_dead_nonce_list fw e upstream =
        if not (needs_dead_nonce_list fw e) then fw else record fw {
          dead_nonce_list =
              add_nonces e.interest.name (out_records_of e upstream) fw.dead_nonce_list;
        }

    abbrev pub count_finalized : Bool → ForwarderCounters → ForwarderCounters
    count_finalized true c = record c { n_satisfied_interests = suc c.n_satisfied_interests }
    count_finalized false c = record c { n_unsatisfied_interests = suc c.n_unsatisfied_interests }

    abbrev pub finalize : Option (Stored Name) → Forwarder Name → Forwarder Name
    finalize none fw = fw
    finalize (some s) fw =
        let fw' =
          count (count_finalized s.entry.is_satisfied) (insert_dead_nonce_list fw s.entry none) in
        record fw' { pit = erase fw'.pit s.id }

    unfoldable pub on_interest_finalize : Forwarder Name → ℕ → Forwarder Name
    unfolding insert_dead_nonce_list erase
    on_interest_finalize fw i = finalize (get fw.pit i) fw
