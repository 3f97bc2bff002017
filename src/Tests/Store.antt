-- ===== src/Tests/Store.antt =====
-- The Content Store and the transports at concrete packets.
use Prim.Native.Nat.{compare}
use nfd.Base.{
  ℕ, suc, ◌+◌, ◌-◌, ◌≡◌, ◌≤◌, refl, true, false, List, [], ◌∷◌, ◌++◌, some, length, drop, erase_if,
  take, min, IsOneOf, arith, ◌==◌,
}
use nfd.Table.Cs.{
  Cs, CsOps, Entry, insert, erase_impl, find, find_impl, find_prefix_range, set_limit, can_satisfy,
  new_entry, emplace, insert_sorted, compare_data_with_data,
}
use nfd.Table.Cs.Synced.{in_table}
use nfd.Table.Cs.Lru.{IsValid, set_limit_lem, insert_new}
use nfd.Table.Cs.Use.{erase_impl_lem, find_impl-find}
use nfd.Table.Cs.History.{empty_store, run, run-empty_store, Event, inserts, finds}
use nfd.FaceSystem.Transport.{Transport, closing, closed, new_transport, is_usable}
use nfd.FaceSystem.Transport.Lifecycle.{run-IsSilent, Valid, closes, sends, receives, sets_state}
use nfd.FaceSystem.Transport.Lifecycle
use nfd.Tests.Data.{video, data_of}

abbrev pub order : CsOps ℕ
order = record {
  compare_names = compare;
  compare_but_last = compare;
  compare_digest = compare;
  is_full_name = λ n. false;
  is_nonempty = λ n. true;
  successor = suc;
  matches_data = λ i d. i.name == d.name;
}

abbrev calls : List (Event ℕ)
calls =
    inserts (data_of 7) false 100
    ∷ inserts (data_of 9) false 200
    ∷ finds (video 3) 250
    ∷ inserts (data_of 4) false 300
    ∷ []

-- Two entries fit: the one of name 9 is evicted, since 7 was used after it.
calls-queue : (run order (empty_store 2) calls).queue ≡ 0 ∷ 2 ∷ []
unfolding run emplace insert_sorted compare_data_with_data
calls-queue = refl

run-empty_store_example :
    IsValid (run order (empty_store 2) calls)
    × (length (run order (empty_store 2) calls).table ≤ (run order (empty_store 2) calls).limit)
run-empty_store_example = run-empty_store order 2 calls

abbrev video_entry : Entry ℕ
video_entry = new_entry order 0 (data_of 7) false 100

abbrev other_entry : Entry ℕ
other_entry = new_entry order 1 (data_of 9) false 200

abbrev stored : Cs ℕ
stored = record (empty_store 2) {
  table = video_entry ∷ other_entry ∷ [];
  next_node = 2;
  queue = 0 ∷ 1 ∷ [];
}

stored-IsValid : IsValid stored
stored-IsValid = record {
  synced = record { same = λ i. ground arith; unique = λ i. ground arith; sizes = refl };
  below = λ i h. ground arith;
}

insert_new_example :
    (insert order stored (data_of 4) false 300).queue
    ≡ drop (suc (length stored.queue) - 2) stored.queue ++ 2 ∷ []
unfolding compare_data_with_data
insert_new_example =
    insert_new order stored (data_of 4) false 300 (stored-IsValid, omega arith) (omega arith) refl
      refl refl

set_limit_example :
    IsValid (set_limit stored 1)
    × (length (set_limit stored 1).table ≤ 1)
    × ((set_limit stored 1).queue ≡ drop (length stored.queue - 1) stored.queue)
set_limit_example = set_limit_lem stored 1 stored-IsValid

erase_impl_example :
    IsValid (erase_impl order stored 7 5).0
    × ((i : ℕ)
        → in_table i (erase_impl order stored 7 5).0.table
            + in_table i (take 5 (find_prefix_range order stored.table 7))
          ≡ in_table i stored.table)
    × (length (erase_impl order stored 7 5).0.table + (erase_impl order stored 7 5).1 ≡ 2)
    × ((erase_impl order stored 7 5).1 ≡ min 5 (length (find_prefix_range order stored.table 7)))
erase_impl_example = erase_impl_lem order stored 7 5 stored-IsValid

found : find_impl order stored (video 3) 250 ≡ some video_entry
unfolding find_impl
found = refl

find_impl-find_example :
    IsOneOf video_entry stored.table
    × ((find order stored (video 3) 250).1 ≡ some video_entry.packet)
    × (can_satisfy order video_entry (video 3) 250 ≡ true)
    × ((find order stored (video 3) 250).0.table ≡ stored.table)
    × ((find order stored (video 3) 250).0.queue ≡ erase_if (◌==◌ 0) stored.queue ++ 0 ∷ [])
find_impl-find_example = find_impl-find order stored (video 3) 250 video_entry stored-IsValid found

abbrev leaving : Transport
leaving = record new_transport { state = closing }

-- What is handed to doSend in the run.
abbrev handed : List ℕ
handed = []

ran :
    Lifecycle.run leaving (sends 80 ∷ sets_state closed ∷ closes [] ∷ sends 90 ∷ [])
    ≡ some (record leaving { state = closed }, handed)
unfolding Lifecycle.run
ran = refl

run-IsSilent_example :
    (is_usable closed ≡ false)
    × (leaving.n_out_packets ≡ 0)
    × (leaving.n_out_bytes ≡ 0)
    × (handed ≡ [])
run-IsSilent_example =
    run-IsSilent leaving (sends 80 ∷ sets_state closed ∷ closes [] ∷ sends 90 ∷ [])
      (record leaving { state = closed }) handed refl ran
