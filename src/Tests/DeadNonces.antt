-- ===== src/Tests/DeadNonces.antt =====
-- The Dead Nonce List at concrete entries.
use nfd.Base.{ℕ, ◌+◌, ◌*◌, ◌≡◌, ◌<◌, refl, true, List, [], ◌∷◌, some, arith, All}
use nfd.Table.DeadNonceList.{
  DeadNonceList, fresh, init, add, has, adjust_capacity, run, adds, marks, adjusts, Event,
}
use nfd.Table.DeadNonceList.Recency.{change_all, has-change_all, adds, marks}
use nfd.Table.DeadNonceList.Capacity.{adjust_capacity_lem, IsBounded}
use nfd.Table.DeadNonceList.Uniqueness.{IsValid, run-init-IsValid}

abbrev hash : ℕ → ℕ → ℕ
hash name nonce = name * 1000 + nonce + 1

abbrev started : DeadNonceList
started = fresh 6000000000 0

init-started : init 6000000000 0 ≡ some started
unfolding init
init-started = refl

abbrev history : List (Event ℕ)
history = adds 7 1 ∷ marks 5 ∷ adds 8 2 ∷ adds 7 1 ∷ adjusts 9 ∷ []

has-change_all_example :
    has hash
      (change_all hash (add hash started 7 1) (adds 8 2 ∷ marks 1200000000 ∷ adds 7 3 ∷ []))
      7
      1
    ≡ true
has-change_all_example =
    has-change_all hash started 7 1 (adds 8 2 ∷ marks 1200000000 ∷ adds 7 3 ∷ []) (omega arith)

abbrev counted : DeadNonceList
counted = record started { actual_mark_counts = 7 ∷ 6 ∷ [] }

adjust_capacity_example :
    IsBounded (adjust_capacity counted 10)
    × ((adjust_capacity counted 10).actual_mark_counts ≡ [])
    × ((adjust_capacity counted 10).capacity < counted.capacity
        → All (λ c. 5 < c) counted.actual_mark_counts)
    × (counted.capacity < (adjust_capacity counted 10).capacity
        → All (λ c. c < 5) counted.actual_mark_counts)
    × ((adjust_capacity counted 10).adjust_capacity_event ≡ 10 + counted.adjust_capacity_interval)
adjust_capacity_example = adjust_capacity_lem counted 10 (omega arith, omega arith)

run-init-IsValid_example : IsValid (run hash started history)
run-init-IsValid_example = run-init-IsValid hash 6000000000 0 history init-started
