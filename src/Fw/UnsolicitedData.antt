-- ===== src/Fw/UnsolicitedData.antt =====
-- daemon/fw/unsolicited-data-policy.{hpp,cpp}: whether Data that nobody asked for is cached.
--
-- The registry of policies by name is left out.
use nfd.Base.{Bool, true, false, if◌then◌else◌}
use nfd.Packet.{Face, is_local, is_non_local}

pub data UnsolicitedDataDecision : Type 0 where
  drop cache : UnsolicitedDataDecision

pub data UnsolicitedDataPolicy : Type 0 where
  drop_all admit_local admit_network admit_all : UnsolicitedDataPolicy

unfoldable pub decide : UnsolicitedDataPolicy → Face → UnsolicitedDataDecision
decide drop_all in_face = drop
decide admit_local in_face = if is_local in_face.scope then cache else drop
decide admit_network in_face = if is_non_local in_face.scope then cache else drop
decide admit_all in_face = cache

abbrev pub is_cache : UnsolicitedDataDecision → Bool
is_cache drop = false
is_cache cache = true
