-- ===== src/Table/Pit.antt =====
-- daemon/table/pit-entry.{hpp,cpp}, pit-face-record, pit-in-record, pit-out-record: a PIT entry
-- with its in-records and out-records.
--
-- A record's StrategyInfoHost keeps the one item that daemon/fw/retx-suppression-exponential.cpp
-- stores: its suppression interval in microseconds. TimePoint::min() is 0. `now` is the steady
-- clock at the time of the call. The assertions that the Interest matches the entry are
-- preconditions. The link to the NameTree entry is left out.
pub mod Records
pub mod Nacks
use nfd.Base.{
  ℕ, ◌+◌, min, ◌≡◌, Bool, true, false, ◌&&◌, not, List, [], ◌∷◌, Option, some, none, find_if,
  erase_if, update_if, ◌==◌, if◌then◌else◌,
}
use nfd.Base.Keyed.{has_key}
use nfd.Packet.{Face, Interest, NackReason, Nack, NameOps, bool_eq, ms}

-- 10 days, in milliseconds.
abbrev pub max_lifetime : ℕ
max_lifetime = 864000000

pub record FaceRecord : Type 0 where
  pub face : Face
  pub last_nonce : ℕ
  pub last_renewed : ℕ
  pub expiry : ℕ

abbrev pub new_face_record : Face → FaceRecord
new_face_record f = record { face = f; last_nonce = 0; last_renewed = 0; expiry = 0 }

module _ {Name : Type 0} where
  unfoldable pub update_face_record : Interest Name → ℕ → FaceRecord → FaceRecord
  update_face_record interest now r = record r {
    last_nonce = interest.nonce;
    last_renewed = now;
    expiry = now + ms (min interest.interest_lifetime max_lifetime);
  }

pub record InRecord (Name : Type 0) : Type 0 where
  pub base : FaceRecord
  pub interest : Option (Interest Name)

pub record OutRecord : Type 0 where
  pub base : FaceRecord
  pub incoming_nack : Option NackReason
  pub suppression_interval : Option ℕ

abbrev pub in_face : {Name : Type 0} → InRecord Name → ℕ
in_face r = r.base.face.ref

abbrev pub out_face : OutRecord → ℕ
out_face r = r.base.face.ref

abbrev pub new_out_record : Face → OutRecord
new_out_record face = record {
  base = new_face_record face;
  incoming_nack = none;
  suppression_interval = none;
}

pub record Entry (Name : Type 0) : Type 0 where
  pub interest : Interest Name
  pub in_records : List (InRecord Name)
  pub out_records : List OutRecord
  pub is_satisfied : Bool
  pub data_freshness_period : ℕ
  pub expiry_timer : Option ℕ
  pub suppression_interval : Option ℕ

module _ {Name : Type 0} where
  abbrev pub new_entry : Interest Name → Entry Name
  new_entry interest = record {
    interest = interest;
    in_records = [];
    out_records = [];
    is_satisfied = false;
    data_freshness_period = 0;
    expiry_timer = none;
    suppression_interval = none;
  }

  unfoldable pub can_match : NameOps Name → Entry Name → Interest Name → ℕ → Bool
  can_match ops e interest n_equal =
      ops.equal_from n_equal e.interest.name interest.name
      && bool_eq e.interest.can_be_prefix interest.can_be_prefix
      && bool_eq e.interest.must_be_fresh interest.must_be_fresh

  unfoldable pub get_in_record : Entry Name → Face → Option (InRecord Name)
  get_in_record e face = find_if (has_key in_face face.ref) e.in_records

  unfoldable pub update_in_record : Interest Name → ℕ → InRecord Name → InRecord Name
  unfolding update_face_record
  update_in_record interest now r = record {
    base = update_face_record interest now r.base;
    interest = some interest;
  }

  abbrev pub new_in_record : Face → InRecord Name
  new_in_record face = record { base = new_face_record face; interest = none }

  unfoldable pub insert_or_update_in_record : Entry Name → Face → Interest Name → ℕ → Entry Name
  unfolding update_in_record
  insert_or_update_in_record e face interest now =
      elim (find_if (has_key in_face face.ref) e.in_records) [
        | none ↦ record e {
          in_records = update_in_record interest now (new_in_record face) ∷ e.in_records;
        }
        | some _ ↦ record e {
          in_records =
              update_if (has_key in_face face.ref) (update_in_record interest now) e.in_records;
        }
      ]

  unfoldable pub delete_in_record : Entry Name → Face → Entry Name
  delete_in_record e face = record e {
    in_records = erase_if (has_key in_face face.ref) e.in_records;
  }

  unfoldable pub clear_in_records : Entry Name → Entry Name
  clear_in_records e = record e { in_records = [] }

  unfoldable pub get_out_record : Entry Name → Face → Option OutRecord
  get_out_record e face = find_if (has_key out_face face.ref) e.out_records

  unfoldable pub update_out_record : Interest Name → ℕ → OutRecord → OutRecord
  unfolding update_face_record
  update_out_record interest now r = record r { base = update_face_record interest now r.base }

  unfoldable pub insert_or_update_out_record : Entry Name → Face → Interest Name → ℕ → Entry Name
  unfolding update_out_record
  insert_or_update_out_record e face interest now =
      elim (find_if (has_key out_face face.ref) e.out_records) [
        | none ↦ record e {
          out_records = update_out_record interest now (new_out_record face) ∷ e.out_records;
        }
        | some _ ↦ record e {
          out_records =
              update_if (has_key out_face face.ref) (update_out_record interest now) e.out_records;
        }
      ]

  unfoldable pub delete_out_record : Entry Name → Face → Entry Name
  delete_out_record e face = record e {
    out_records = erase_if (has_key out_face face.ref) e.out_records;
  }

  -- The record after the call, and whether the Nack is accepted.
  unfoldable pub set_incoming_nack : OutRecord → Nack Name → OutRecord × Bool
  set_incoming_nack r nack =
      if not (nack.interest.nonce == r.base.last_nonce)
      then (r, false)
      else (record r { incoming_nack = some nack.reason }, true)

unfoldable pub clear_incoming_nack : OutRecord → OutRecord
clear_incoming_nack r = record r { incoming_nack = none }
