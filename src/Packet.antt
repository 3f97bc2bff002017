-- ===== src/Packet.antt =====
-- The packets and names of ndn-cxx as the forwarder sees them, and the attributes of a face.
--
-- ndn-cxx is not part of this repository: a name is a value of a parameter type, its operations
-- are the fields of `NameOps`, and a packet is the record of what its accessors return. A face is
-- what `&face`, getId, getScope and getLinkType return; two references are to one face when their
-- `ref` is the same. Times are nanoseconds; the lifetimes in packets are milliseconds.
use nfd.Base.{ℕ, ◌*◌, List, Option, Bool, true, false, ◌==◌, ◌≡◌, ◌↔◌}

pub data FaceScope : Type 0 where
  scope_none non_local local : FaceScope

pub data LinkType : Type 0 where
  link_none point_to_point multi_access ad_hoc : LinkType

pub record Face : Type 0 where
  pub ref : ℕ
  pub id : ℕ
  pub scope : FaceScope
  pub link_type : LinkType

abbrev pub invalid_face_id : ℕ
invalid_face_id = 0

abbrev pub same_face : Face → Face → Bool
same_face a b = a.ref == b.ref

abbrev pub is_local : FaceScope → Bool
is_local local = true
is_local scope_none = false
is_local non_local = false

abbrev pub is_non_local : FaceScope → Bool
is_non_local non_local = true
is_non_local scope_none = false
is_non_local local = false

abbrev pub is_ad_hoc : LinkType → Bool
is_ad_hoc ad_hoc = true
is_ad_hoc link_none = false
is_ad_hoc point_to_point = false
is_ad_hoc multi_access = false

abbrev pub is_point_to_point : LinkType → Bool
is_point_to_point point_to_point = true
is_point_to_point link_none = false
is_point_to_point ad_hoc = false
is_point_to_point multi_access = false

pub data NackReason : Type 0 where
  reason_none congestion duplicate no_route : NackReason

pub record Interest (Name : Type 0) : Type 0 where
  pub name : Name
  pub can_be_prefix : Bool
  pub must_be_fresh : Bool
  pub nonce : ℕ
  pub interest_lifetime : ℕ
  pub hop_limit : Option ℕ
  pub forwarding_hint : List Name
  pub next_hop_face_id : Option ℕ
  pub pit_token : Option ℕ

pub data CachePolicy : Type 0 where
  other_policy no_cache : CachePolicy

pub record Data (Name : Type 0) : Type 0 where
  pub name : Name
  pub digest : ℕ
  pub freshness_period : ℕ
  pub cache_policy : Option CachePolicy
  pub pit_token : Option ℕ

pub record Nack (Name : Type 0) : Type 0 where
  pub interest : Interest Name
  pub reason : NackReason

abbrev pub bool_eq : Bool → Bool → Bool
bool_eq true true = true
bool_eq true false = false
bool_eq false true = false
bool_eq false false = true

abbrev pub ms : ℕ → ℕ
ms n = n * 1000000

-- Name::compare(n, npos, other, n) == 0, Name::isPrefixOf and the two scope prefixes.
pub record NameOps (Name : Type 0) : Type 0 where
  pub equal_from : ℕ → Name → Name → Bool
  pub is_prefix_of : Name → Name → Bool
  pub localhost : Name
  pub localhop : Name

-- Whole names compare equal exactly when they are equal.
abbrev pub HasEquality : {Name : Type 0} → NameOps Name → Type 0
HasEquality {Name} ops = (a b : Name) → (ops.equal_from 0 a b ≡ true) ↔ (a ≡ b)
