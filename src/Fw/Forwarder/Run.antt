-- ===== src/Fw/Forwarder/Run.antt =====
-- The forwarder over a history of packets, timers and management (daemon/fw/forwarder.cpp).
use nfd.Base.{ℕ, List, [], ◌∷◌, refl, arith, erase_if, ◌≡◌, some}
use nfd.Base.Keyed.{has_key}
use nfd.Packet.{Face, Interest, Data, Nack}
use nfd.Table.FibTable.{Fib}
use nfd.Table.Cleanup.{cleanup_on_face_removal, clean_pit-IsValid}
use nfd.Table.Cs.History
use nfd.Table.DeadNonceList.{DeadNonceList}
use nfd.Table.DeadNonceList
use nfd.Table.DeadNonceList.Uniqueness
use nfd.Fw.Forwarder.{
  Forwarder, Env, FaceEndpoint, ForwarderCounters, on_interest_finalize, removed_face, id_in,
}
use nfd.Fw.Strategy.{Strategy}
use nfd.Fw.Forwarder.Incoming.{on_incoming_interest}
use nfd.Fw.Forwarder.IncomingData.{on_incoming_data, on_incoming_nack}
use nfd.Fw.Forwarder.Invariant.{IsValid}
use nfd.Fw.Forwarder.Invariant.Interests.{cs-IsValid, incoming_interest-IsValid}
use nfd.Fw.Forwarder.NewNextHop.{add_fib_next_hop}
use nfd.Fw.Forwarder.Invariant.NextHops.{fib-IsValid, next_hop-IsValid}
use nfd.Fw.Forwarder.Invariant.Datas.{
  finalized-IsValid, incoming_data-IsValid, incoming_nack-IsValid,
}

-- What happens to a forwarder. A face that is removed is not added again.
pub data Event (Name : Type 0) : Type 0 where
  receives_interest : Interest Name → FaceEndpoint → ℕ → Event Name
  receives_data : Data Name → FaceEndpoint → ℕ → Event Name
  receives_nack : Nack Name → FaceEndpoint → ℕ → Event Name
  expires : ℕ → Event Name
  adds_face : Face → Event Name
  removes_face : Face → Event Name
  adds_next_hop : Name → Face → ℕ → ℕ → Event Name
  changes_fib : Fib Name → Event Name
  manages_cs : History.Event Name → Event Name
  manages_nonces : DeadNonceList.Event Name → Event Name

abbrev pub no_counts : ForwarderCounters
no_counts = record {
  n_in_interests = 0;
  n_out_interests = 0;
  n_in_data = 0;
  n_out_data = 0;
  n_in_nacks = 0;
  n_out_nacks = 0;
  n_satisfied_interests = 0;
  n_unsatisfied_interests = 0;
  n_unsolicited_data = 0;
  n_cs_hits = 0;
  n_cs_misses = 0;
}

-- A forwarder right after construction, with the regions that are configured.
abbrev pub new_forwarder : {Name : Type 0} → List Name → ℕ → DeadNonceList → Forwarder Name
new_forwarder regions n_max_packets dead_nonce_list = record {
  counters = no_counts;
  n_in_hop_limit_zero = λ r. 0;
  n_out_hop_limit_zero = λ r. 0;
  face_table = [];
  fib = record { entries = []; n_items = 0 };
  pit = record { next_id = 0; stored = [] };
  cs = History.empty_store n_max_packets;
  dead_nonce_list = dead_nonce_list;
  network_region_table = regions;
  sent = [];
}

module _ {Name : Type 0} where
  -- The face of a packet or a call, with the identifier that it has by then.
  abbrev current : Forwarder Name → Face → Face
  current fw face = record face { id = id_in fw.sent face }

  abbrev current_endpoint : Forwarder Name → FaceEndpoint → FaceEndpoint
  current_endpoint fw ingress = record ingress { face = current fw ingress.face }

  -- The slot of `beforeRemove`, the removal from the face table, and the reset of the identifier.
  unfoldable pub remove_face : Forwarder Name → Face → Forwarder Name
  unfolding cleanup_on_face_removal
  remove_face fw face =
      let (fib, pit) = cleanup_on_face_removal fw.fib fw.pit face in
      record fw {
        fib = fib;
        pit = pit;
        face_table = erase_if (has_key (λ (f : Face). f.id) face.id) fw.face_table;
        sent = removed_face face ∷ fw.sent;
      }

  module _ (env : Env Name) (strategy_of : Name → Strategy env) where
    unfoldable pub step : Forwarder Name → Event Name → Forwarder Name
    unfolding add_fib_next_hop on_incoming_interest on_incoming_data on_incoming_nack
        on_interest_finalize remove_face History.step DeadNonceList.step
    step fw (receives_interest interest ingress now) =
        on_incoming_interest env strategy_of fw interest (current_endpoint fw ingress) now
    step fw (receives_data packet ingress now) =
        on_incoming_data env strategy_of fw packet (current_endpoint fw ingress) now
    step fw (receives_nack nack ingress now) =
        on_incoming_nack env strategy_of fw nack (current_endpoint fw ingress) now
    step fw (expires i) = on_interest_finalize env fw i
    step fw (adds_face face) = record fw { face_table = face ∷ fw.face_table }
    step fw (removes_face face) = remove_face fw face
    step fw (adds_next_hop prefix face cost now) =
        add_fib_next_hop env strategy_of fw prefix (current fw face) cost now
    step fw (changes_fib fib) = record fw { fib = fib }
    step fw (manages_cs event) = record fw { cs = History.step env.cs_ops fw.cs event }
    step fw (manages_nonces event) = record fw {
      dead_nonce_list = DeadNonceList.step env.make_entry fw.dead_nonce_list event;
    }

    unfoldable pub run : Forwarder Name → List (Event Name) → Forwarder Name
    unfolding step
    run fw [] = fw
    run fw (event ∷ events) = run (step fw event) events

    step-IsValid :
        (fw : Forwarder Name) (event : Event Name)
        → IsValid env.names fw
        → IsValid env.names (step fw event)
    unfolding step remove_face cleanup_on_face_removal
    step-IsValid fw (receives_interest interest ingress now) v =
        incoming_interest-IsValid env strategy_of fw interest (current_endpoint fw ingress) now v
    step-IsValid fw (receives_data packet ingress now) v =
        incoming_data-IsValid env strategy_of fw packet (current_endpoint fw ingress) now v
    step-IsValid fw (receives_nack nack ingress now) v =
        incoming_nack-IsValid env strategy_of fw nack (current_endpoint fw ingress) now v
    step-IsValid fw (expires i) v = finalized-IsValid env fw i v
    step-IsValid fw (adds_face face) v = record {
      pit_valid = v.pit_valid;
      cs_valid = v.cs_valid;
      nonces_valid = v.nonces_valid;
      sent_allowed = v.sent_allowed;
    }
    step-IsValid fw (removes_face face) v = record {
      pit_valid = clean_pit-IsValid face fw.pit v.pit_valid;
      cs_valid = v.cs_valid;
      nonces_valid = v.nonces_valid;
      sent_allowed = (tt, v.sent_allowed);
    }
    step-IsValid fw (adds_next_hop prefix face cost now) v =
        next_hop-IsValid env strategy_of fw prefix (current fw face) cost now v
    step-IsValid fw (changes_fib fib) v = fib-IsValid env strategy_of fw fib v
    step-IsValid fw (manages_cs event) v = cs-IsValid env fw event v
    step-IsValid fw (manages_nonces event) v = record {
      pit_valid = v.pit_valid;
      cs_valid = v.cs_valid;
      nonces_valid = Uniqueness.step-IsValid env.make_entry fw.dead_nonce_list event v.nonces_valid;
      sent_allowed = v.sent_allowed;
    }

    run-IsValid :
        (fw : Forwarder Name) (events : List (Event Name))
        → IsValid env.names fw
        → IsValid env.names (run fw events)
    unfolding run
    run-IsValid fw [] v = v
    run-IsValid fw (event ∷ events) v = run-IsValid (step fw event) events (step-IsValid fw event v)

    -- Whatever packets arrive, timers expire and faces and tables change, and whatever the
    -- strategies do through the pipelines: a forwarder that starts with empty tables keeps its PIT,
    -- its Content Store and its Dead Nonce List valid; no Interest whose hop limit is used up was
    -- ever sent to a face that is not local, no Data under /localhost to such a face and none to a
    -- face that had been removed before or had no identifier, and Nacks were sent to point-to-point
    -- faces only.
    pub run-new_forwarder :
        (regions : List Name) (n_max_packets lifetime start : ℕ) (d : DeadNonceList)
        (events : List (Event Name))
        → DeadNonceList.init lifetime start ≡ some d
        → IsValid env.names (run (new_forwarder regions n_max_packets d) events)
    run-new_forwarder regions n_max_packets lifetime start d events constructed =
        run-IsValid (new_forwarder regions n_max_packets d) events (record {
          pit_valid = record { distinct = λ i. omega arith; below = λ i h. refl; records = tt };
          cs_valid = (
            record {
              synced = record { same = λ i. refl; unique = λ i. omega arith; sizes = refl };
              below = λ i h. refl;
            },
            omega arith,
          );
          nonces_valid = Uniqueness.init-IsValid lifetime start constructed;
          sent_allowed = tt;
        })
