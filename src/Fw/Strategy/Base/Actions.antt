-- ===== src/Fw/Strategy/Base/Actions.antt =====
-- The actions of the base class act through the pipelines and the PIT entry alone
-- (daemon/fw/strategy.cpp).
use nfd.Base.{ℕ, Bool, true, false, List, [], ◌∷◌, Option, some, none, if◌then◌else◌, is_empty, ◌+◌}
use nfd.Packet.{Face, Interest, Data, NackReason, ms}
use nfd.Table.Pit.{delete_in_record, clear_in_records}
use nfd.Table.Pit.Records.{call-IsValid, call, deletes_in, clears_in}
use nfd.Fw.Forwarder.{Forwarder, Env, set_expiry_timer, on_outgoing_data, pending_interest}
use nfd.Fw.Strategy.{Acts, acts_none, acts_interest, acts_data, acts_nack, acts_write}
use nfd.Fw.Strategy.Base.{
  in_records_of, mark_satisfied, close_down, send_interest, token_of, send_data_with, send_data,
  send_data_loop, pending_downstreams, send_data_to_all, send_nack, send_nack_loop, send_nacks,
  except, in_faces,
}

module _ {Name : Type 0} (env : Env Name) {i now : ℕ} where
  pub if-Acts :
      {fw a b : Forwarder Name} (test : Bool)
      → Acts env i now fw a
      → Acts env i now fw b
      → Acts env i now fw (if test then a else b)
  if-Acts true taken skipped = taken
  if-Acts false taken skipped = skipped

  pub timer-Acts :
      {fw fw' : Forwarder Name} (duration : ℕ)
      → Acts env i now fw fw'
      → Acts env i now fw (set_expiry_timer fw' i duration now)
  unfolding set_expiry_timer
  timer-Acts duration acts =
      acts_write (λ e. record e { expiry_timer = some (now + ms duration) })
        (record { keeps = λ e w. record { ins = w.ins; outs = w.outs } }) acts

  close-Acts :
      {fw fw' : Forwarder Name} → Acts env i now fw fw' → Acts env i now fw (close_down fw' i now)
  close-Acts acts =
      acts_write mark_satisfied (record { keeps = λ e w. record { ins = w.ins; outs = w.outs } })
        (timer-Acts 0 acts)

  pub send_interest-Acts :
      (fw : Forwarder Name) (interest : Interest Name) (egress : Face)
      → Acts env i now fw (send_interest env fw interest egress i now).0
  unfolding send_interest
  send_interest-Acts fw interest egress =
      acts_interest (record interest { pit_token = none }) egress acts_none

  send_data_with-Acts :
      {fw fw' : Forwarder Name} (packet : Data Name) (egress : Face) (token : Option ℕ)
      → Acts env i now fw fw'
      → Acts env i now fw (send_data_with env fw' packet egress i now token).0
  send_data_with-Acts packet egress (some token) acts =
      acts_data (record packet { pit_token = some token }) egress acts
  send_data_with-Acts {fw' = fw'} packet egress none acts =
      let sent = acts_data packet egress acts in
      if-Acts (is_empty (in_records_of (on_outgoing_data env fw' packet egress).0 i))
        (close-Acts sent) sent

  pub send_data-Acts :
      {fw fw' : Forwarder Name} (packet : Data Name) (egress : Face)
      → Acts env i now fw fw'
      → Acts env i now fw (send_data env fw' packet egress i now).0
  unfolding send_data call
  send_data-Acts {fw' = fw'} packet egress acts =
      send_data_with-Acts packet egress (token_of env (pending_interest env fw' i egress)) (
        acts_write (λ e. delete_in_record e egress)
          (record { keeps = λ e w. call-IsValid e (deletes_in egress) w }) acts)

  send_data_loop-Acts :
      {fw : Forwarder Name} (faces : List Face) (packet : Data Name) {fw' : Forwarder Name}
      → Acts env i now fw fw'
      → Acts env i now fw (send_data_loop env faces fw' packet i now)
  send_data_loop-Acts [] packet acts = acts
  send_data_loop-Acts (face ∷ faces) packet acts =
      send_data_loop-Acts faces packet (send_data-Acts packet face acts)

  send_data_to_all-Acts :
      (fw : Forwarder Name) (packet : Data Name) (in_face : Face)
      → Acts env i now fw (send_data_to_all env fw packet i in_face now)
  unfolding send_data_to_all call
  send_data_to_all-Acts fw packet in_face = close-Acts (
      acts_write clear_in_records (record { keeps = λ e w. call-IsValid e clears_in w })
        (send_data_loop-Acts (pending_downstreams env now in_face (in_records_of fw i) []) packet
          acts_none))

  pub send_nack-Acts :
      {fw fw' : Forwarder Name} (reason : NackReason) (egress : Face)
      → Acts env i now fw fw'
      → Acts env i now fw (send_nack env fw' reason egress i).0
  unfolding send_nack
  send_nack-Acts reason egress acts = acts_nack reason egress acts

  send_nack_loop-Acts :
      {fw : Forwarder Name} (faces : List Face) (reason : NackReason) {fw' : Forwarder Name}
      → Acts env i now fw fw'
      → Acts env i now fw (send_nack_loop env faces fw' reason i)
  send_nack_loop-Acts [] reason acts = acts
  send_nack_loop-Acts (face ∷ faces) reason acts =
      send_nack_loop-Acts faces reason (send_nack-Acts reason face acts)

  pub send_nacks-Acts :
      (fw : Forwarder Name) (reason : NackReason) (except_faces : List Face)
      → Acts env i now fw (send_nacks env fw reason i except_faces)
  unfolding send_nacks
  send_nacks-Acts fw reason except_faces =
      send_nack_loop-Acts (except env except_faces (in_faces env (in_records_of fw i))) reason
        acts_none
