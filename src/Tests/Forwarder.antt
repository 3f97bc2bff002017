-- ===== src/Tests/Forwarder.antt =====
-- The forwarder with the best-route strategy at concrete packets.
use nfd.Base.{
  drop, take, arith, ℕ, List, [], ◌∷◌, ◌++◌, true, false, ◌≡◌, refl, some, none, inl, inr, ap, zero,
  suc,
}
use nfd.Packet.{Nack, duplicate, no_route}
use nfd.Table.Pit.{InRecord, OutRecord, new_entry, get_out_record}
use nfd.Table.PitTable
use nfd.Table.PitTable.{Pit, Stored, find_all_data_matches, find}
use nfd.Table.DeadNonceList
use nfd.Fw.RetxSuppression.{decide_per_pit_entry, suppress}
use nfd.Fw.UnsolicitedData.{decide}
use nfd.Fw.Forwarder.{Forwarder, sent_interest, sent_data, sent_nack, violates_localhost}
use nfd.Fw.Forwarder.Run.{Event, run, receives_interest, receives_data, expires, run-new_forwarder}
use nfd.Fw.Forwarder.Incoming.{on_incoming_interest}
use nfd.Fw.Forwarder.IncomingData.{on_incoming_data, on_incoming_nack}
use nfd.Fw.Forwarder.Invariant.{IsValid}
use nfd.Fw.Forwarder.Delivery.{IsBase, on_incoming_data-sends}
use nfd.Fw.Forwarder.Delivery.Sending.{IsServed}
use nfd.Fw.Forwarder.Delivery.Gathered.{downstream}
use nfd.Fw.Forwarder.Delivery.Writes.{FacesAgree}
use nfd.Fw.Forwarder.Drops.{
  SameTables, on_incoming_interest-SameTables, on_incoming_nack-SameTables,
  on_incoming_data-unsolicited,
}
use nfd.Fw.Strategy.BestRoute.{after_receive_interest}
use nfd.Fw.Strategy.BestRoute.Actions.{best_route}
use nfd.Fw.Strategy.Multicast.Actions.{multicast}
use nfd.Fw.Strategy.Lookup.{lookup_fib}
use nfd.Fw.Strategy.BestRoute.Choice.{SendsAtMostOne, after_receive_interest_lem}
use nfd.Tests.Data.{app, east, west, video, data_of}
use nfd.Fw.Strategy.Multicast
use nfd.Fw.Strategy.Random
use nfd.Fw.Strategy.Random.{random}
use nfd.Tests.Network.{env, doubling, strategies, empty, started, asks, at_app, at_east, fib}

asks-sent : (run env strategies empty asks).sent ≡ sent_interest east (video 11) ∷ []
unfolding run strategies best_route DeadNonceList.contains after_receive_interest
asks-sent = refl

-- The Data goes to the application, as the Interest went to the next hop of lowest cost.
answered-sent :
    (run env strategies empty (asks ++ receives_data (data_of 7) at_east 2000 ∷ [])).sent
    ≡ sent_data app (data_of 7) ∷ sent_interest east (video 11) ∷ []
unfolding run strategies best_route DeadNonceList.contains after_receive_interest
answered-sent = refl

abbrev history : List (Event ℕ)
history =
    asks
    ++ receives_data (data_of 7) at_east 2000
      ∷ expires 0
      ∷ receives_interest (video 11) at_app 3000
      ∷ []

init-started : DeadNonceList.init 6000000000 0 ≡ some started
unfolding DeadNonceList.init
init-started = refl

run-new_forwarder_example : IsValid env.names (run env strategies empty history)
run-new_forwarder_example =
    run-new_forwarder env strategies [] 10 6000000000 0 started history init-started

abbrev in_record : InRecord ℕ
in_record = record {
  base = record { face = app; last_nonce = 11; last_renewed = 1000; expiry = 4000001000 };
  interest = some (video 11);
}

abbrev out_record : OutRecord
out_record = record {
  base = record { face = east; last_nonce = 11; last_renewed = 1000; expiry = 4000001000 };
  incoming_nack = none;
  suppression_interval = none;
}

abbrev waiting_entry : Stored ℕ
waiting_entry = record {
  id = 0;
  nte = 7;
  entry = record (new_entry (video 11)) {
    in_records = in_record ∷ [];
    out_records = out_record ∷ [];
  };
}

-- A forwarder whose application waits for Data from the east.
abbrev pub waiting : Forwarder ℕ
waiting = record empty { fib = fib; pit = record { next_id = 1; stored = waiting_entry ∷ [] } }

strategies-IsBase : IsBase env strategies
unfolding strategies best_route
strategies-IsBase name fw i ingress packet downstreams now = refl

waiting-matches : find_all_data_matches env.names env.pit_ops waiting.pit (data_of 7) ≡ 0 ∷ []
unfolding find_all_data_matches
waiting-matches = refl

waiting-FacesAgree : FacesAgree app waiting
waiting-FacesAgree zero r (inl same) = λ ref. ap (λ x. x.base.face) same
waiting-FacesAgree zero r (inr none_there) = elim none_there [ ]
waiting-FacesAgree (suc j) r there = absurd (ground (arith, there))

on_incoming_data-sends_example :
    IsServed env strategies
      (data_of 7)
      at_east
      (downstream app)
      (on_incoming_data env strategies waiting (data_of 7) at_east 2000)
unfolding violates_localhost
on_incoming_data-sends_example =
    on_incoming_data-sends env strategies strategies-IsBase (data_of 7) at_east 2000 waiting 0
      in_record refl waiting-FacesAgree (rw waiting-matches (inl refl)) (inl refl) refl

-- The Nonce 11 of the name is in the Dead Nonce List.
abbrev seen : Forwarder ℕ
seen = record empty { dead_nonce_list = record started { queue = 7012 ∷ [] } }

on_incoming_interest-SameTables_example :
    let fw' = on_incoming_interest env strategies seen (video 11) at_app 1000 in
    (false ≡ true → SameTables seen fw' × (fw'.sent ≡ []))
    × (false ≡ false
        → DeadNonceList.has env.make_entry seen.dead_nonce_list 7 11 ≡ true
        → SameTables seen fw' × (fw'.sent ≡ sent_nack app (video 11) duplicate ∷ []))
unfolding violates_localhost
on_incoming_interest-SameTables_example =
    on_incoming_interest-SameTables env strategies seen (video 11) at_app 1000

seen-has : DeadNonceList.has env.make_entry seen.dead_nonce_list 7 11 ≡ true
unfolding DeadNonceList.has DeadNonceList.contains
seen-has = refl

abbrev late_nack : Nack ℕ
late_nack = record { interest = video 12; reason = no_route }

on_incoming_nack-SameTables_example :
    let fw' = on_incoming_nack env strategies waiting late_nack at_east 2000 in
    SameTables waiting fw' × (fw'.sent ≡ [])
unfolding PitTable.find get_out_record
on_incoming_nack-SameTables_example =
    on_incoming_nack-SameTables env strategies waiting late_nack at_east 2000 refl

on_incoming_data-unsolicited_example :
    let fw' = on_incoming_data env strategies waiting (data_of 9) at_east 2000 in
    (fw'.pit ≡ waiting.pit)
    × (fw'.dead_nonce_list ≡ waiting.dead_nonce_list)
    × (fw'.sent ≡ [])
    × (false ≡ false → fw'.cs ≡ waiting.cs)
unfolding find_all_data_matches violates_localhost decide
on_incoming_data-unsolicited_example =
    on_incoming_data-unsolicited env strategies waiting (data_of 9) at_east 2000 refl

-- A retransmission 2 microseconds after the Interest was sent.
after_receive_interest_example :
    let fw' = after_receive_interest env doubling (λ a b. false) waiting (video 12) at_app 0 3000 in
    SendsAtMostOne env doubling
      (λ a b. false)
      waiting
      (video 12)
      app
      (record waiting_entry.entry { suppression_interval = some 10000 })
      (lookup_fib env waiting
        (record waiting_entry.entry { suppression_interval = some 10000 })).next_hops
      fw'
    × (suppress ≡ suppress → fw'.sent ≡ [])
unfolding decide_per_pit_entry
after_receive_interest_example =
    after_receive_interest_lem env doubling (λ a b. false) waiting (video 12) at_app 0 3000
      waiting_entry (record waiting_entry.entry { suppression_interval = some 10000 }) suppress refl
      refl

-- The multicast strategy sends to both next hops.
multicast-sent :
    (run env (λ name. multicast env doubling) empty asks).sent
    ≡ sent_interest west (video 11) ∷ sent_interest east (video 11) ∷ []
unfolding run multicast DeadNonceList.contains Multicast.after_receive_interest
multicast-sent = refl

-- The random strategy with a shuffle that puts the first next hop behind the others.
random-sent :
    (run env
      (λ name. random env (λ hops. drop 1 hops ++ take 1 hops) (λ a b. false))
      empty
      asks).sent
    ≡ sent_interest west (video 11) ∷ []
unfolding run random DeadNonceList.contains Random.after_receive_interest
random-sent = refl
