-- ===== src/Tests/Network.antt =====
-- A forwarder with the best-route strategy, for the tests: two next hops for one name.
use nfd.Base.{ℕ, suc, ◌+◌, ◌*◌, ◌==◌, List, [], ◌∷◌, false}
use nfd.Table.FibTable.{Fib}
use nfd.Table.PitTable.{PitOps}
use nfd.Table.DeadNonceList.{DeadNonceList, fresh}
use nfd.Fw.RetxSuppression.{RetxSuppressionExponential}
use nfd.Fw.UnsolicitedData.{drop_all}
use nfd.Fw.Forwarder.{Forwarder, Env, FaceEndpoint}
use nfd.Fw.Strategy.{Strategy}
use nfd.Fw.Strategy.BestRoute.Actions.{best_route}
use nfd.Fw.Forwarder.Run.{Event, new_forwarder, receives_interest, adds_face, changes_fib}
use nfd.Tests.Data.{app, east, west, names, video}
use nfd.Tests.Store.{order}

abbrev pub pit_ops : PitOps ℕ
pit_ops = record {
  size_of = λ n. 1;
  has_digest = λ n. false;
  prefix_of = λ depth n. depth * n;
  same_name = λ a b. a == b;
  matches_data = λ interest packet. interest.name == packet.name;
}

abbrev pub env : Env ℕ
env = record {
  names = names;
  pit_ops = pit_ops;
  cs_ops = order;
  sort_next_hops = λ hops. hops;
  make_entry = λ name nonce. suc (name * 1000 + nonce);
  default_hop_limit = 0;
  unsolicited_data_policy = drop_all;
  cs_face = record app { id = 254; ref = 254 };
}

abbrev pub doubling : RetxSuppressionExponential
doubling = record { initial_interval = 10000; scale = λ d. 2 * d; max_interval = 250000 }

unfoldable pub strategies : ℕ → Strategy env
unfolding best_route
strategies name = best_route env doubling (λ a b. false)

abbrev pub started : DeadNonceList
started = fresh 6000000000 0

abbrev pub fib : Fib ℕ
fib = record {
  entries =
      record {
        prefix = 7;
        next_hops = record { face = east; cost = 10 } ∷ record { face = west; cost = 20 } ∷ [];
      }
      ∷ [];
  n_items = 1;
}

abbrev pub at_app : FaceEndpoint
at_app = record { face = app; endpoint = 0 }

abbrev pub at_east : FaceEndpoint
at_east = record { face = east; endpoint = 0 }

-- An Interest of the application, and the Data from the east.
abbrev pub asks : List (Event ℕ)
asks = adds_face app ∷ changes_fib fib ∷ receives_interest (video 11) at_app 1000 ∷ []

abbrev pub empty : Forwarder ℕ
empty = new_forwarder [] 10 started
