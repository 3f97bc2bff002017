-- ===== src/Table/Pit/Records.antt =====
-- The record operations of a PIT entry (daemon/table/pit-entry.cpp and pit-*-record.cpp).
use nfd.Base.{
  ℕ, ◌+◌, min, ◌≡◌, refl, ◌≢◌, inl, inr, some, none, find_if, arith, Option-cases, ==_refl, ==_ne,
}
use nfd.Base.Keyed.{
  has_key, IsDistinct, erase-IsDistinct, find-erase_self, find-erase_ne, count-update,
  find-update_self, find-update_ne, count_absent,
}
use nfd.Packet.{Face, Interest, ms}
use nfd.Table.Pit.{
  max_lifetime, Entry, InRecord, OutRecord, in_face, out_face, get_in_record, update_in_record,
  insert_or_update_in_record, new_in_record, delete_in_record, clear_in_records, get_out_record,
  update_out_record, insert_or_update_out_record, new_out_record, delete_out_record,
}

-- Each face has at most one in-record and at most one out-record.
pub record IsValid {Name : Type 0} (e : Entry Name) : Type 0 where
  pub ins : IsDistinct in_face e.in_records
  pub outs : IsDistinct out_face e.out_records

module _ {Name : Type 0} (e : Entry Name) (face : Face) (interest : Interest Name) (now : ℕ) where
  update_in_face : (r : InRecord Name) → in_face (update_in_record interest now r) ≡ in_face r
  unfolding update_in_record
  update_in_face r = refl

  update_out_face : (r : OutRecord) → out_face (update_out_record interest now r) ≡ out_face r
  unfolding update_out_record
  update_out_face r = refl

  insert_in-IsDistinct :
      IsDistinct in_face e.in_records
      → IsDistinct in_face (insert_or_update_in_record e face interest now).in_records
  unfolding insert_or_update_in_record
  insert_in-IsDistinct d j = elim (Option-cases (find_if (has_key in_face face.ref) e.in_records)) [
    | inl absent ↦
        rw (absent, insert_or_update_in_record)
          (ground (arith, count_absent in_face face.ref e.in_records, d j))
    | inr (r, found) ↦
        rw (found, insert_or_update_in_record)
          (omega (
            arith,
            count-update in_face (update_in_record interest now) update_in_face face.ref j
                e.in_records,
            d j,
          ))
  ]

  insert_out-IsDistinct :
      IsDistinct out_face e.out_records
      → IsDistinct out_face (insert_or_update_out_record e face interest now).out_records
  unfolding insert_or_update_out_record
  insert_out-IsDistinct d j =
      elim (Option-cases (find_if (has_key out_face face.ref) e.out_records)) [
        | inl absent ↦
            rw (absent, insert_or_update_out_record)
              (ground (arith, count_absent out_face face.ref e.out_records, d j))
        | inr (r, found) ↦
            rw (found, insert_or_update_out_record)
              (omega (
                arith,
                count-update out_face (update_out_record interest now) update_out_face face.ref j
                    e.out_records,
                d j,
              ))
      ]

  insert_in_other : (insert_or_update_in_record e face interest now).out_records ≡ e.out_records
  unfolding insert_or_update_in_record
  insert_in_other = ground arith

  insert_out_other : (insert_or_update_out_record e face interest now).in_records ≡ e.in_records
  unfolding insert_or_update_out_record
  insert_out_other = ground arith

  -- After `insertOrUpdateInRecord` the face has an in-record that holds the Interest and its
  -- Nonce, is renewed now, and expires after the Interest's lifetime, but at most 10 days later;
  -- every other face has the in-record that it had.
  pub get-insert_in_record :
      ((r : InRecord Name) × (get_in_record (insert_or_update_in_record e face interest now) face
          ≡ some r)
        × (r.interest ≡ some interest)
        × (r.base.last_nonce ≡ interest.nonce)
        × (r.base.last_renewed ≡ now)
        × (r.base.expiry ≡ now + ms (min interest.interest_lifetime max_lifetime)))
      × ((other : Face)
          → other.ref ≢ face.ref
          → get_in_record (insert_or_update_in_record e face interest now) other
            ≡ get_in_record e other)
  unfolding insert_or_update_in_record get_in_record update_in_record
  get-insert_in_record = elim (Option-cases (find_if (has_key in_face face.ref) e.in_records)) [
    | inl absent ↦
        rw (absent, insert_or_update_in_record)
          (
            (
              update_in_record interest now (new_in_record face),
              rw (==_refl face.ref) refl,
              refl,
              refl,
              refl,
              refl,
            ),
            λ other ne. rw (==_ne face.ref other.ref (λ p. ne (ground arith))) refl,
          )
    | inr (r, found) ↦
        rw (found, insert_or_update_in_record)
          (
            (
              update_in_record interest now r,
              find-update_self in_face (update_in_record interest now) update_in_face face.ref
                  e.in_records r found,
              refl,
              refl,
              refl,
              refl,
            ),
            λ other ne.
                find-update_ne in_face (update_in_record interest now) update_in_face face.ref
                  other.ref e.in_records ne,
          )
  ]

  -- After `insertOrUpdateOutRecord` the face has an out-record with the Interest's Nonce, renewed
  -- now, that expires after the Interest's lifetime, but at most 10 days later; every other face
  -- has the out-record that it had.
  get-insert_out_record :
      ((r : OutRecord) × (get_out_record (insert_or_update_out_record e face interest now) face
          ≡ some r)
        × (r.base.last_nonce ≡ interest.nonce)
        × (r.base.last_renewed ≡ now)
        × (r.base.expiry ≡ now + ms (min interest.interest_lifetime max_lifetime)))
      × ((other : Face)
          → other.ref ≢ face.ref
          → get_out_record (insert_or_update_out_record e face interest now) other
            ≡ get_out_record e other)
  unfolding insert_or_update_out_record get_out_record update_out_record
  get-insert_out_record = elim (Option-cases (find_if (has_key out_face face.ref) e.out_records)) [
    | inl absent ↦
        rw (absent, insert_or_update_out_record)
          (
            (
              update_out_record interest now (new_out_record face),
              rw (==_refl face.ref) refl,
              refl,
              refl,
              refl,
            ),
            λ other ne. rw (==_ne face.ref other.ref (λ p. ne (ground arith))) refl,
          )
    | inr (r, found) ↦
        rw (found, insert_or_update_out_record)
          (
            (
              update_out_record interest now r,
              find-update_self out_face (update_out_record interest now) update_out_face face.ref
                  e.out_records r found,
              refl,
              refl,
              refl,
            ),
            λ other ne.
                find-update_ne out_face (update_out_record interest now) update_out_face face.ref
                  other.ref e.out_records ne,
          )
  ]

-- The calls that change the records of an entry.
pub data Call (Name : Type 0) : Type 0 where
  inserts_in inserts_out : Face → Interest Name → ℕ → Call Name
  deletes_in deletes_out : Face → Call Name
  clears_in : Call Name

module _ {Name : Type 0} where
  unfoldable pub call : Entry Name → Call Name → Entry Name
  call e (inserts_in face interest now) = insert_or_update_in_record e face interest now
  call e (inserts_out face interest now) = insert_or_update_out_record e face interest now
  call e (deletes_in face) = delete_in_record e face
  call e (deletes_out face) = delete_out_record e face
  call e clears_in = clear_in_records e

  -- No call gives a face a second in-record or a second out-record.
  pub call-IsValid : (e : Entry Name) (c : Call Name) → IsValid e → IsValid (call e c)
  unfolding call delete_in_record delete_out_record clear_in_records
  call-IsValid e (inserts_in face interest now) v = record {
    ins = insert_in-IsDistinct e face interest now v.ins;
    outs = rw (insert_in_other e face interest now) v.outs;
  }
  call-IsValid e (inserts_out face interest now) v = record {
    ins = rw (insert_out_other e face interest now) v.ins;
    outs = insert_out-IsDistinct e face interest now v.outs;
  }
  call-IsValid e (deletes_in face) v = record {
    ins = erase-IsDistinct in_face face.ref e.in_records v.ins;
    outs = v.outs;
  }
  call-IsValid e (deletes_out face) v = record {
    ins = v.ins;
    outs = erase-IsDistinct out_face face.ref e.out_records v.outs;
  }
  call-IsValid e clears_in v = record { ins = λ k. omega arith; outs = v.outs }

  -- Deleting the records of a face: the face has none left, the records of other faces stay.
  get-delete_records :
      (e : Entry Name) (face other : Face)
      → IsValid e
      → other.ref ≢ face.ref
      → (get_in_record (delete_in_record e face) face ≡ none)
        × (get_in_record (delete_in_record e face) other ≡ get_in_record e other)
        × (get_out_record (delete_out_record e face) face ≡ none)
        × (get_out_record (delete_out_record e face) other ≡ get_out_record e other)
  unfolding get_in_record delete_in_record get_out_record delete_out_record
  get-delete_records e face other v ne = (
    find-erase_self in_face face.ref e.in_records (v.ins face.ref),
    find-erase_ne in_face face.ref other.ref e.in_records ne,
    find-erase_self out_face face.ref e.out_records (v.outs face.ref),
    find-erase_ne out_face face.ref other.ref e.out_records ne,
  )
