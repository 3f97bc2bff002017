-- ===== src/Table/Pit/Nacks.antt =====
-- The Nack that an out-record holds (daemon/table/pit-out-record.{hpp,cpp}, pit-entry.cpp), when the
-- Interest is sent again.
use nfd.Base.{ℕ, ◌+◌, min, ◌≡◌, refl, some}
use nfd.Base.Keyed.{find-update_self}
use nfd.Packet.{Face, Interest, NackReason}
use nfd.Table.Pit.{
  Entry, OutRecord, out_face, get_out_record, insert_or_update_out_record, update_out_record,
  update_face_record, ms, max_lifetime,
}

module _ {Name : Type 0} where
  -- An out-record that holds a Nack keeps it when the Interest is sent to the face once more,
  -- though it then has the new Nonce, is renewed now, and expires
  -- after the lifetime of the Interest, or after the largest one if that is less.
  pub insert_out_record-incoming_nack :
      (e : Entry Name) (face : Face) (interest : Interest Name) (now : ℕ) (r : OutRecord)
      (reason : NackReason)
      → get_out_record e face ≡ some r
      → r.incoming_nack ≡ some reason
      → (r' : OutRecord) × (get_out_record (insert_or_update_out_record e face interest now) face
          ≡ some r')
        × (r'.incoming_nack ≡ some reason)
        × (r'.base.last_nonce ≡ interest.nonce)
        × (r'.base.last_renewed ≡ now)
        × (r'.base.expiry ≡ now + ms (min interest.interest_lifetime max_lifetime))
  unfolding get_out_record insert_or_update_out_record update_out_record update_face_record
  insert_out_record-incoming_nack e face interest now r reason found nacked = (
    update_out_record interest now r,
    rw (found, insert_or_update_out_record)
        (find-update_self out_face (update_out_record interest now) (λ q. refl) face.ref
          e.out_records r found),
    nacked,
    refl,
    refl,
    refl,
  )
