-- ===== src/Fw/Strategy/Random.antt =====
-- daemon/fw/random-strategy.{hpp,cpp}: the strategy that sends to a random eligible next hop.
--
-- `shuffle` is std::shuffle with a state of the generator, which the caller supplies.
use nfd.Base.{ℕ, Bool, false, List, [], ◌∷◌, Option, some, none, if◌then◌else◌}
use nfd.Packet.{Face, Interest, Nack, NackReason, no_route}
use nfd.Table.Pit.{Entry}
use nfd.Table.PitTable.{Stored, get}
use nfd.Table.Fib.{NextHop}
use nfd.Fw.Algorithm.{is_next_hop_eligible}
use nfd.Fw.ProcessNack.{process_nack}
use nfd.Fw.Forwarder.{Forwarder, Env, FaceEndpoint}
use nfd.Fw.Strategy.{Strategy, Acts, acts_none}
use nfd.Fw.Strategy.Base
use nfd.Fw.Strategy.Base.{reject_pending_interest, send_interest, send_nack}
use nfd.Fw.Strategy.Base.Actions.{timer-Acts, send_interest-Acts, send_nack-Acts, send_data-Acts}
use nfd.Fw.Strategy.Lookup.{lookup_fib}
use nfd.Fw.Strategy.BestRoute.{process_nack_at}
use nfd.Fw.Strategy.BestRoute.Actions.{process_nack-Acts}

module _ {Name : Type 0} (env : Env Name) (shuffle : List NextHop → List NextHop)
    (is_less_severe : NackReason → NackReason → Bool) where
  -- `std::copy_if`.
  abbrev pub eligible_next_hops : Face → Interest Name → Entry Name → List NextHop → List NextHop
  eligible_next_hops in_face interest e [] = []
  eligible_next_hops in_face interest e (hop ∷ hops) =
      let rest = eligible_next_hops in_face interest e hops in
      if is_next_hop_eligible env.names in_face interest e hop false 0 then hop ∷ rest else rest

  -- To the front of the shuffled next hops.
  abbrev pub send_front : Forwarder Name → Interest Name → ℕ → ℕ → List NextHop → Forwarder Name
  send_front fw interest i now [] = fw
  send_front fw interest i now (hop ∷ hops) = (send_interest env fw interest hop.face i now).0

  abbrev pub send_random :
      Forwarder Name → Interest Name → Face → ℕ → ℕ → List NextHop → Forwarder Name
  send_random fw interest in_face i now [] =
      reject_pending_interest (send_nack env fw no_route in_face i).0 i now
  send_random fw interest in_face i now (hop ∷ hops) =
      send_front fw interest i now (shuffle (hop ∷ hops))

  abbrev pub forward_randomly :
      Forwarder Name → Interest Name → Face → ℕ → ℕ → Option (Stored Name) → Forwarder Name
  forward_randomly fw interest in_face i now none = fw
  forward_randomly fw interest in_face i now (some s) =
      send_random fw interest in_face i now
        (eligible_next_hops in_face interest s.entry (lookup_fib env fw s.entry).next_hops)

  unfoldable pub after_receive_interest :
      Forwarder Name → Interest Name → FaceEndpoint → ℕ → ℕ → Forwarder Name
  unfolding lookup_fib send_interest send_nack is_next_hop_eligible
  after_receive_interest fw interest ingress i now =
      forward_randomly fw interest ingress.face i now (get fw.pit i)

  unfoldable pub after_receive_nack :
      Forwarder Name → Nack Name → FaceEndpoint → ℕ → ℕ → Forwarder Name
  unfolding process_nack send_nack
  after_receive_nack fw nack ingress i now = process_nack_at env is_less_severe fw i (get fw.pit i)

  front-Acts :
      {i now : ℕ} (fw : Forwarder Name) (interest : Interest Name) (hops : List NextHop)
      → Acts env i now fw (send_front fw interest i now hops)
  front-Acts fw interest [] = acts_none
  front-Acts fw interest (hop ∷ hops) = send_interest-Acts env fw interest hop.face

  random-Acts :
      {i now : ℕ} (fw : Forwarder Name) (interest : Interest Name) (in_face : Face)
      (hops : List NextHop)
      → Acts env i now fw (send_random fw interest in_face i now hops)
  random-Acts fw interest in_face [] =
      timer-Acts env 0 (send_nack-Acts env no_route in_face acts_none)
  random-Acts fw interest in_face (hop ∷ hops) = front-Acts fw interest (shuffle (hop ∷ hops))

  forward-Acts :
      {i now : ℕ} (fw : Forwarder Name) (interest : Interest Name) (in_face : Face)
      (stored : Option (Stored Name))
      → Acts env i now fw (forward_randomly fw interest in_face i now stored)
  forward-Acts fw interest in_face none = acts_none
  forward-Acts fw interest in_face (some s) =
      random-Acts fw interest in_face
        (eligible_next_hops in_face interest s.entry (lookup_fib env fw s.entry).next_hops)

  pub after_receive_interest-Acts :
      {i now : ℕ} (fw : Forwarder Name) (interest : Interest Name) (ingress : FaceEndpoint)
      → Acts env i now fw (after_receive_interest fw interest ingress i now)
  unfolding after_receive_interest
  after_receive_interest-Acts {i} fw interest ingress =
      forward-Acts fw interest ingress.face (get fw.pit i)

  -- The triggers that RandomStrategy overrides, and those of the base class.
  unfoldable pub random : Strategy env
  unfolding after_receive_interest after_receive_nack Base.satisfy_interest
      Base.after_content_store_hit
  random = record {
    after_receive_interest = after_receive_interest;
    after_receive_looped_interest = λ fw ingress interest i now. fw;
    before_satisfy_interest = λ fw packet ingress i now. fw;
    satisfy_interest = Base.satisfy_interest env;
    after_content_store_hit = Base.after_content_store_hit env;
    after_receive_nack = after_receive_nack;
    after_new_next_hop = λ fw hop i now. fw;
    interest-Acts = λ fw interest ingress i now.
        after_receive_interest-Acts {i = i} {now = now} fw interest ingress;
    looped-Acts = λ fw ingress interest i now. acts_none;
    before-Acts = λ fw packet ingress i now. acts_none;
    satisfy-Acts = λ fw i ingress packet downstreams now. acts_none;
    hit-Acts = λ fw packet ingress i now. send_data-Acts env packet ingress.face acts_none;
    nack-Acts = λ fw nack ingress i now.
        process_nack-Acts env {i = i} {now = now} is_less_severe fw (get fw.pit i);
    next_hop-Acts = λ fw hop i now. acts_none;
  }
