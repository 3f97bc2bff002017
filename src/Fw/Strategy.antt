-- ===== src/Fw/Strategy.antt =====
-- daemon/fw/strategy.{hpp,cpp}: what a strategy can do, the triggers that the forwarder calls, and
-- the triggers of the base class.
--
-- A trigger takes the forwarder to the forwarder after it. The interface `Strategy` demands of each
-- trigger that it acts through the pipelines and the PIT entry alone (`Acts`): an outgoing
-- pipeline, or a write to the entry that keeps its records distinct. A set of downstreams is a list
-- without duplicates; its order is not that of the addresses, by which the source goes through the
-- set.
pub mod Base
pub mod Lookup
pub mod BestRoute
pub mod Multicast
pub mod Random
use mathlib.Core.Path.{◌∙◌}
use nfd.Base.{
  ℕ, Bool, true, false, ◌&&◌, List, [], ◌∷◌, Option, some, none, any_of, ◌==◌, ltb, if◌then◌else◌,
}
use nfd.Packet.{Face, Interest, Data, NackReason, Nack, same_face}
use nfd.Table.Pit.{Entry}
use nfd.Table.Pit.Records.{IsValid}
use nfd.Table.Fib.{NextHop}
use nfd.Fw.Forwarder.{
  Forwarder, Env, FaceEndpoint, modify_entry, on_outgoing_interest, on_outgoing_data,
  on_outgoing_nack,
}

-- A write that keeps the records of an entry distinct.
pub record Keeps {Name : Type 0} (f : Entry Name → Entry Name) : Type 0 where
  pub keeps : (e : Entry Name) → IsValid e → IsValid (f e)

-- The forwarders that actions on the PIT entry `i` lead to.
pub data Acts {Name : Type 0} (env : Env Name) (i now : ℕ) (fw : Forwarder Name)
    : Forwarder Name → Type 0 where
  acts_none : Acts env i now fw fw
  acts_interest :
      {fw' : Forwarder Name} (interest : Interest Name) (egress : Face)
      → Acts env i now fw fw'
      → Acts env i now fw (on_outgoing_interest env fw' interest egress i now).0
  acts_data :
      {fw' : Forwarder Name} (packet : Data Name) (egress : Face)
      → Acts env i now fw fw'
      → Acts env i now fw (on_outgoing_data env fw' packet egress).0
  acts_nack :
      {fw' : Forwarder Name} (reason : NackReason) (egress : Face)
      → Acts env i now fw fw'
      → Acts env i now fw (on_outgoing_nack env fw' reason egress i).0
  acts_write :
      {fw' : Forwarder Name} (f : Entry Name → Entry Name)
      → Keeps f
      → Acts env i now fw fw'
      → Acts env i now fw (modify_entry f i fw')

-- The two sets that `satisfyInterest` fills.
pub record Downstreams : Type 0 where
  pub satisfied : List FaceEndpoint
  pub unsatisfied : List FaceEndpoint

abbrev pub same_endpoint : FaceEndpoint → FaceEndpoint → Bool
same_endpoint a b = same_face a.face b.face && a.endpoint == b.endpoint

-- `emplace` of a set.
abbrev pub emplace : FaceEndpoint → List FaceEndpoint → List FaceEndpoint
emplace d ds = if any_of (same_endpoint d) ds then ds else d ∷ ds

pub record Strategy {Name : Type 0} (env : Env Name) : Type 0 where
  pub after_receive_interest :
      Forwarder Name → Interest Name → FaceEndpoint → ℕ → ℕ → Forwarder Name
  pub after_receive_looped_interest :
      Forwarder Name → FaceEndpoint → Interest Name → ℕ → ℕ → Forwarder Name
  pub before_satisfy_interest : Forwarder Name → Data Name → FaceEndpoint → ℕ → ℕ → Forwarder Name
  pub satisfy_interest :
      Forwarder Name → ℕ → FaceEndpoint → Data Name → Downstreams → ℕ → Forwarder Name × Downstreams
  pub after_content_store_hit : Forwarder Name → Data Name → FaceEndpoint → ℕ → ℕ → Forwarder Name
  pub after_receive_nack : Forwarder Name → Nack Name → FaceEndpoint → ℕ → ℕ → Forwarder Name
  pub after_new_next_hop : Forwarder Name → NextHop → ℕ → ℕ → Forwarder Name
  pub interest-Acts :
      (fw : Forwarder Name) (interest : Interest Name) (ingress : FaceEndpoint) (i now : ℕ)
      → Acts env i now fw (after_receive_interest fw interest ingress i now)
  pub looped-Acts :
      (fw : Forwarder Name) (ingress : FaceEndpoint) (interest : Interest Name) (i now : ℕ)
      → Acts env i now fw (after_receive_looped_interest fw ingress interest i now)
  pub before-Acts :
      (fw : Forwarder Name) (packet : Data Name) (ingress : FaceEndpoint) (i now : ℕ)
      → Acts env i now fw (before_satisfy_interest fw packet ingress i now)
  pub satisfy-Acts :
      (fw : Forwarder Name) (i : ℕ) (ingress : FaceEndpoint) (packet : Data Name)
      (downstreams : Downstreams) (now : ℕ)
      → Acts env i now fw (satisfy_interest fw i ingress packet downstreams now).0
  pub hit-Acts :
      (fw : Forwarder Name) (packet : Data Name) (ingress : FaceEndpoint) (i now : ℕ)
      → Acts env i now fw (after_content_store_hit fw packet ingress i now)
  pub nack-Acts :
      (fw : Forwarder Name) (nack : Nack Name) (ingress : FaceEndpoint) (i now : ℕ)
      → Acts env i now fw (after_receive_nack fw nack ingress i now)
  pub next_hop-Acts :
      (fw : Forwarder Name) (hop : NextHop) (i now : ℕ)
      → Acts env i now fw (after_new_next_hop fw hop i now)

-- Actions that follow actions.
pub Acts-trans :
    {Name : Type 0} {env : Env Name} {i now : ℕ} {a b c : Forwarder Name}
    → Acts env i now a b
    → Acts env i now b c
    → Acts env i now a c
Acts-trans first acts_none = first
Acts-trans first (acts_interest interest egress rest) =
    acts_interest interest egress (Acts-trans first rest)
Acts-trans first (acts_data packet egress rest) = acts_data packet egress (Acts-trans first rest)
Acts-trans first (acts_nack reason egress rest) = acts_nack reason egress (Acts-trans first rest)
Acts-trans first (acts_write f keeps rest) = acts_write f keeps (Acts-trans first rest)
