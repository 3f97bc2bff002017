-- ===== src/Fw/Forwarder/Invariant.antt =====
-- What every outgoing pipeline keeps (daemon/fw/forwarder.cpp), whatever the strategy does.
pub mod Interests
pub mod Datas
pub mod NextHops
use nfd.Base.{
  ℕ, ◌≡◌, true, false, ◌&&◌, List, [], ◌∷◌, Option, some, none, inl, inr, Bool-cases, ◌==◌,
}
use nfd.Packet.{
  Face, Interest, Data, NackReason, NameOps, is_non_local, is_point_to_point, invalid_face_id,
}
use nfd.Table.Pit.{
  Entry, OutRecord, insert_or_update_in_record, insert_or_update_out_record, delete_in_record,
  delete_out_record,
}
use nfd.Table.Pit.Records
use nfd.Table.Pit.Records.{call-IsValid, inserts_in, inserts_out, deletes_in, deletes_out, call}
use nfd.Table.PitTable.Invariant
use nfd.Table.PitTable.Invariant.{modify-IsValid}
use nfd.Table.Cs.Lru
use nfd.Table.Cs.Lru.{IsWithin}
use nfd.Table.DeadNonceList
use nfd.Table.DeadNonceList.Uniqueness
use nfd.Table.DeadNonceList.Uniqueness.{step-IsValid}
use nfd.Fw.Forwarder.{
  Forwarder, Env, Sent, sent_interest, sent_data, sent_nack, removed_face, id_in,
  violates_localhost, is_zero, modify_entry, on_outgoing_interest, on_outgoing_data,
  on_outgoing_nack, nack_in_record, pending_interest, set_expiry_timer, insert_dead_nonce_list,
  add_nonces, needs_dead_nonce_list, out_records_of,
}
use nfd.Fw.Strategy.{Acts, acts_none, acts_interest, acts_data, acts_nack, acts_write}

-- What a face may be given, after what the log says: no Interest whose hop limit is used up goes to
-- a face that is not local, no Data under /localhost either, nor to a face that was
-- removed before or has no identifier, and Nacks go to point-to-point faces only.
abbrev pub IsAllowed : {Name : Type 0} → NameOps Name → List (Sent Name) → Sent Name → Type 0
IsAllowed names log (sent_interest egress interest) =
    (is_zero interest.hop_limit && is_non_local egress.scope) ≡ false
IsAllowed names log (sent_data egress packet) =
    (violates_localhost names egress packet.name ≡ false)
    × ((id_in log egress == invalid_face_id) ≡ false)
IsAllowed names log (sent_nack egress interest reason) = is_point_to_point egress.link_type ≡ true
IsAllowed names log (removed_face face) = Unit

-- Everything in the log was allowed by what the log said before.
abbrev pub AllAllowed : {Name : Type 0} → NameOps Name → List (Sent Name) → Type 0
AllAllowed names [] = Unit
AllAllowed names (packet ∷ log) = IsAllowed names log packet × AllAllowed names log

-- The tables are valid and everything that was sent was allowed.
pub record IsValid {Name : Type 0} (names : NameOps Name) (fw : Forwarder Name) : Type 0 where
  pub pit_valid : Invariant.IsValid fw.pit
  pub cs_valid : IsWithin fw.cs.limit fw.cs
  pub nonces_valid : Uniqueness.IsValid fw.dead_nonce_list
  pub sent_allowed : AllAllowed names fw.sent

module _ {Name : Type 0} where
  pub write-IsValid :
      (names : NameOps Name) (f : Entry Name → Entry Name) (i : ℕ) (fw : Forwarder Name)
      → ((e : Entry Name) → Records.IsValid e → Records.IsValid (f e))
      → IsValid names fw
      → IsValid names (modify_entry f i fw)
  write-IsValid names f i fw keeps v = record {
    pit_valid = modify-IsValid f i fw.pit keeps v.pit_valid;
    cs_valid = v.cs_valid;
    nonces_valid = v.nonces_valid;
    sent_allowed = v.sent_allowed;
  }

  pub insert_in-keeps :
      (face : Face) (interest : Interest Name) (now : ℕ) (e : Entry Name)
      → Records.IsValid e
      → Records.IsValid (insert_or_update_in_record e face interest now)
  unfolding call
  insert_in-keeps face interest now e v = call-IsValid e (inserts_in face interest now) v

  insert_out-keeps :
      (face : Face) (interest : Interest Name) (now : ℕ) (e : Entry Name)
      → Records.IsValid e
      → Records.IsValid (insert_or_update_out_record e face interest now)
  unfolding call
  insert_out-keeps face interest now e v = call-IsValid e (inserts_out face interest now) v

  pub delete_in-keeps :
      (face : Face) (e : Entry Name) → Records.IsValid e → Records.IsValid (delete_in_record e face)
  unfolding call
  delete_in-keeps face e v = call-IsValid e (deletes_in face) v

  pub delete_out-keeps :
      (face : Face) (e : Entry Name)
      → Records.IsValid e
      → Records.IsValid (delete_out_record e face)
  unfolding call
  delete_out-keeps face e v = call-IsValid e (deletes_out face) v

  pub timer-IsValid :
      (names : NameOps Name) (fw : Forwarder Name) (i duration now : ℕ)
      → IsValid names fw
      → IsValid names (set_expiry_timer fw i duration now)
  unfolding set_expiry_timer
  timer-IsValid names fw i duration now v =
      write-IsValid names _ i fw (λ e w. record { ins = w.ins; outs = w.outs }) v

  module _ (env : Env Name) where
    outgoing_interest-IsValid :
        (fw : Forwarder Name) (interest : Interest Name) (egress : Face) (i now : ℕ)
        → IsValid env.names fw
        → IsValid env.names (on_outgoing_interest env fw interest egress i now).0
    unfolding on_outgoing_interest
    outgoing_interest-IsValid fw interest egress i now v =
        elim (Bool-cases (is_zero interest.hop_limit && is_non_local egress.scope)) [
          | inl refused ↦
              rw (refused, on_outgoing_interest)
                (record {
                  pit_valid = v.pit_valid;
                  cs_valid = v.cs_valid;
                  nonces_valid = v.nonces_valid;
                  sent_allowed = v.sent_allowed;
                })
          | inr allowed ↦
              let written =
                write-IsValid env.names (λ e. insert_or_update_out_record e egress interest now) i
                  fw (insert_out-keeps egress interest now) v in
              rw (allowed, on_outgoing_interest)
                (record {
                  pit_valid = written.pit_valid;
                  cs_valid = v.cs_valid;
                  nonces_valid = v.nonces_valid;
                  sent_allowed = (allowed, v.sent_allowed);
                })
        ]

    pub outgoing_data-IsValid :
        (fw : Forwarder Name) (packet : Data Name) (egress : Face)
        → IsValid env.names fw
        → IsValid env.names (on_outgoing_data env fw packet egress).0
    unfolding on_outgoing_data
    outgoing_data-IsValid fw packet egress v =
        elim (Bool-cases (id_in fw.sent egress == invalid_face_id)) [
          | inl invalid ↦ rw (invalid, on_outgoing_data) v
          | inr valid ↦ elim (Bool-cases (violates_localhost env.names egress packet.name)) [
            | inl violates ↦ rw (valid, violates, on_outgoing_data) v
            | inr allowed ↦
                rw (valid, allowed, on_outgoing_data)
                  (record {
                    pit_valid = v.pit_valid;
                    cs_valid = v.cs_valid;
                    nonces_valid = v.nonces_valid;
                    sent_allowed = ((allowed, valid), v.sent_allowed);
                  })
          ]
        ]

    nack_in_record-IsValid :
        (fw : Forwarder Name) (reason : NackReason) (egress : Face) (i : ℕ)
        (pending : Option (Interest Name))
        → IsValid env.names fw
        → IsValid env.names (nack_in_record env fw reason egress i pending).0
    nack_in_record-IsValid fw reason egress i none v = v
    nack_in_record-IsValid fw reason egress i (some interest) v =
        elim (Bool-cases (is_point_to_point egress.link_type)) [
          | inr other ↦ rw other v
          | inl p2p ↦
              let written =
                write-IsValid env.names (λ e. delete_in_record e egress) i fw
                  (delete_in-keeps egress) v in
              rw p2p (record {
                pit_valid = written.pit_valid;
                cs_valid = v.cs_valid;
                nonces_valid = v.nonces_valid;
                sent_allowed = (p2p, v.sent_allowed);
              })
        ]

    outgoing_nack-IsValid :
        (fw : Forwarder Name) (reason : NackReason) (egress : Face) (i : ℕ)
        → IsValid env.names fw
        → IsValid env.names (on_outgoing_nack env fw reason egress i).0
    unfolding on_outgoing_nack
    outgoing_nack-IsValid fw reason egress i v =
        elim (Bool-cases (id_in fw.sent egress == invalid_face_id)) [
          | inl invalid ↦ rw (invalid, on_outgoing_nack) v
          | inr valid ↦
              rw (valid, on_outgoing_nack)
                (nack_in_record-IsValid fw reason egress i (pending_interest env fw i egress) v)
        ]

    -- Whatever a strategy does through its actions keeps the forwarder valid.
    pub Acts-IsValid :
        {i now : ℕ} {fw fw' : Forwarder Name}
        → Acts env i now fw fw'
        → IsValid env.names fw
        → IsValid env.names fw'
    Acts-IsValid acts_none v = v
    Acts-IsValid {i} {now} (acts_interest {fw'} interest egress rest) v =
        outgoing_interest-IsValid fw' interest egress i now (Acts-IsValid rest v)
    Acts-IsValid (acts_data {fw'} packet egress rest) v =
        outgoing_data-IsValid fw' packet egress (Acts-IsValid rest v)
    Acts-IsValid {i} (acts_nack {fw'} reason egress rest) v =
        outgoing_nack-IsValid fw' reason egress i (Acts-IsValid rest v)
    Acts-IsValid {i} (acts_write {fw'} f k rest) v =
        write-IsValid env.names f i fw' k.keeps (Acts-IsValid rest v)

    add_nonces-IsValid :
        (name : Name) (rs : List OutRecord) (d : DeadNonceList.DeadNonceList)
        → Uniqueness.IsValid d
        → Uniqueness.IsValid (add_nonces env name rs d)
    unfolding DeadNonceList.step
    add_nonces-IsValid name [] d v = v
    add_nonces-IsValid name (r ∷ rs) d v =
        add_nonces-IsValid name rs _
          (step-IsValid env.make_entry d (DeadNonceList.adds name r.base.last_nonce) v)

    pub nonces-IsValid :
        (fw : Forwarder Name) (e : Entry Name) (upstream : Option Face)
        → IsValid env.names fw
        → IsValid env.names (insert_dead_nonce_list env fw e upstream)
    unfolding insert_dead_nonce_list
    nonces-IsValid fw e upstream v = elim (Bool-cases (needs_dead_nonce_list env fw e)) [
      | inr unneeded ↦ rw (unneeded, insert_dead_nonce_list) v
      | inl needed ↦
          rw (needed, insert_dead_nonce_list)
            (record {
              pit_valid = v.pit_valid;
              cs_valid = v.cs_valid;
              nonces_valid =
                  add_nonces-IsValid e.interest.name (out_records_of env e upstream)
                    fw.dead_nonce_list v.nonces_valid;
              sent_allowed = v.sent_allowed;
            })
    ]
