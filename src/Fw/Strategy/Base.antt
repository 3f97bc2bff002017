-- ===== src/Fw/Strategy/Base.antt =====
-- daemon/fw/strategy.cpp: the actions of a strategy and the triggers of the base class.
--
-- `sendData` as written reaches its end without a `return` when the in-record has no PIT token,
-- though it is declared to return a bool: the standard leaves the behaviour of such a call
-- undefined. The model returns `none` in place of the bool, with the forwarder that the statements
-- before the end lead to, and its callers go on from there, as compiled code does that does not use
-- the value. The assertion of `sendData` that the Interest of the entry matches the Data is left
-- out.
pub mod Actions
use nfd.Base.{
  ℕ, Bool, true, false, not, ◌&&◌, List, [], ◌∷◌, Option, some, none, any_of, erase_if, ◌==◌, ltb,
  if◌then◌else◌, is_empty,
}
use nfd.Packet.{Face, Interest, Data, NackReason, Nack, same_face, is_ad_hoc}
use nfd.Table.Pit.{Entry, InRecord, get_in_record, delete_in_record, clear_in_records}
use nfd.Table.PitTable.{get}
use nfd.Fw.Forwarder.{
  Forwarder, Env, FaceEndpoint, modify_entry, on_outgoing_interest, on_outgoing_data,
  on_outgoing_nack, set_expiry_timer, pending_interest,
}
use nfd.Fw.Strategy.{Downstreams, emplace}

module _ {Name : Type 0} where
  -- The in-records of an entry that is there.
  abbrev pub in_records_of : Forwarder Name → ℕ → List (InRecord Name)
  in_records_of fw i = elim (get fw.pit i) [ none ↦ [] | some s ↦ s.entry.in_records ]

  abbrev pub mark_satisfied : Entry Name → Entry Name
  mark_satisfied e = record e { is_satisfied = true }

  -- "closing down" the entry.
  abbrev pub close_down : Forwarder Name → ℕ → ℕ → Forwarder Name
  close_down fw i now = modify_entry mark_satisfied i (set_expiry_timer fw i 0 now)

  abbrev pub reject_pending_interest : Forwarder Name → ℕ → ℕ → Forwarder Name
  reject_pending_interest fw i now = set_expiry_timer fw i 0 now

  abbrev pub add_unexpired : ℕ → List (InRecord Name) → List FaceEndpoint → List FaceEndpoint
  add_unexpired now [] ds = ds
  add_unexpired now (r ∷ rs) ds = add_unexpired now rs (
      if ltb now r.base.expiry
      then emplace (record { face = r.base.face; endpoint = 0 }) ds
      else ds)

  module _ (env : Env Name) where
    unfoldable pub send_interest :
        Forwarder Name → Interest Name → Face → ℕ → ℕ → Forwarder Name × Bool
    unfolding on_outgoing_interest
    send_interest fw interest egress i now =
        on_outgoing_interest env fw (record interest { pit_token = none }) egress i now

    abbrev pub token_of : Option (Interest Name) → Option ℕ
    token_of none = none
    token_of (some interest) = interest.pit_token

    -- From the deletion of the in-record on, by the PIT token of the in-record; the second
    -- component is what is returned, `none` where no `return` is reached.
    abbrev pub send_data_with :
        Forwarder Name → Data Name → Face → ℕ → ℕ → Option ℕ → Forwarder Name × Option Bool
    send_data_with fw packet egress i now (some token) =
        let (fw', sent) =
          on_outgoing_data env fw (record packet { pit_token = some token }) egress in
        (fw', some sent)
    send_data_with fw packet egress i now none =
        let fw' = (on_outgoing_data env fw packet egress).0 in
        (if is_empty (in_records_of fw' i) then close_down fw' i now else fw', none)

    unfoldable pub send_data :
        Forwarder Name → Data Name → Face → ℕ → ℕ → Forwarder Name × Option Bool
    unfolding on_outgoing_data delete_in_record get_in_record set_expiry_timer
    send_data fw packet egress i now =
        send_data_with (modify_entry (λ e. delete_in_record e egress) i fw) packet egress i now
          (token_of (pending_interest env fw i egress))

    abbrev pub is_other_downstream : ℕ → Face → InRecord Name → Bool
    is_other_downstream now in_face r =
        ltb now r.base.expiry
        && not (r.base.face.id == in_face.id && not (is_ad_hoc r.base.face.link_type))

    abbrev pub add_face : Face → List Face → List Face
    add_face face faces = if any_of (same_face face) faces then faces else face ∷ faces

    abbrev pub pending_downstreams : ℕ → Face → List (InRecord Name) → List Face → List Face
    pending_downstreams now in_face [] faces = faces
    pending_downstreams now in_face (r ∷ rs) faces =
        pending_downstreams now in_face rs
          (if is_other_downstream now in_face r then add_face r.base.face faces else faces)

    abbrev pub send_data_loop : List Face → Forwarder Name → Data Name → ℕ → ℕ → Forwarder Name
    send_data_loop [] fw packet i now = fw
    send_data_loop (face ∷ faces) fw packet i now =
        send_data_loop faces (send_data fw packet face i now).0 packet i now

    unfoldable pub send_data_to_all : Forwarder Name → Data Name → ℕ → Face → ℕ → Forwarder Name
    unfolding send_data clear_in_records set_expiry_timer
    send_data_to_all fw packet i in_face now =
        let sent =
          send_data_loop (pending_downstreams now in_face (in_records_of fw i) []) fw packet i
            now in
        close_down (modify_entry clear_in_records i sent) i now

    unfoldable pub send_nack : Forwarder Name → NackReason → Face → ℕ → Forwarder Name × Bool
    unfolding on_outgoing_nack
    send_nack fw reason egress i = on_outgoing_nack env fw reason egress i

    abbrev pub in_faces : List (InRecord Name) → List Face
    in_faces [] = []
    in_faces (r ∷ rs) = add_face r.base.face (in_faces rs)

    abbrev pub except : List Face → List Face → List Face
    except [] faces = faces
    except (x ∷ xs) faces = except xs (erase_if (same_face x) faces)

    abbrev pub send_nack_loop : List Face → Forwarder Name → NackReason → ℕ → Forwarder Name
    send_nack_loop [] fw reason i = fw
    send_nack_loop (face ∷ faces) fw reason i =
        send_nack_loop faces (send_nack fw reason face i).0 reason i

    unfoldable pub send_nacks : Forwarder Name → NackReason → ℕ → List Face → Forwarder Name
    unfolding send_nack
    send_nacks fw reason i except_faces =
        send_nack_loop (except except_faces (in_faces (in_records_of fw i))) fw reason i

    -- The triggers of the base class.
    unfoldable pub satisfy_interest :
        Forwarder Name
        → ℕ
        → FaceEndpoint
        → Data Name
        → Downstreams
        → ℕ
        → Forwarder Name × Downstreams
    satisfy_interest fw i ingress packet downstreams now = (
      fw,
      record downstreams {
        satisfied = add_unexpired now (in_records_of fw i) downstreams.satisfied;
      },
    )

    unfoldable pub after_content_store_hit :
        Forwarder Name → Data Name → FaceEndpoint → ℕ → ℕ → Forwarder Name
    unfolding send_data
    after_content_store_hit fw packet ingress i now = (send_data fw packet ingress.face i now).0

    unfoldable pub after_receive_data :
        Forwarder Name → Data Name → FaceEndpoint → ℕ → ℕ → Forwarder Name
    unfolding send_data_to_all
    after_receive_data fw packet ingress i now = send_data_to_all fw packet i ingress.face now
