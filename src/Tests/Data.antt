-- ===== src/Tests/Data.antt =====
-- Faces, packets and parameters for the tests: a name is a number, and is a prefix of itself alone.
use nfd.Base.{ℕ, false, [], none, ◌==◌}
use nfd.Packet.{Face, local, non_local, point_to_point, Interest, Data, NameOps}

abbrev pub app : Face
app = record { ref = 1; id = 257; scope = local; link_type = point_to_point }

abbrev pub east : Face
east = record { ref = 2; id = 258; scope = non_local; link_type = point_to_point }

abbrev pub west : Face
west = record { ref = 3; id = 259; scope = non_local; link_type = point_to_point }

abbrev pub names : NameOps ℕ
names = record {
  equal_from = λ n a b. a == b;
  is_prefix_of = λ a b. a == b;
  localhost = 100;
  localhop = 101;
}

abbrev pub video : ℕ → Interest ℕ
video nonce = record {
  name = 7;
  can_be_prefix = false;
  must_be_fresh = false;
  nonce = nonce;
  interest_lifetime = 4000;
  hop_limit = none;
  forwarding_hint = [];
  next_hop_face_id = none;
  pit_token = none;
}

abbrev pub data_of : ℕ → Data ℕ
data_of name = record {
  name = name;
  digest = 5;
  freshness_period = 10;
  cache_policy = none;
  pit_token = none;
}
