-- ===== src/Table/DeadNonceList/Uniqueness.antt =====
-- The invariant of the Dead Nonce List over all its operations and timers
-- (daemon/table/dead-nonce-list.cpp).
use nfd.Base.{
  ℕ, zero, suc, ◌-◌, ◌≤◌, min, ◌≡◌, refl, ◌≢◌, inl, inr, List, [], ◌∷◌, ◌++◌, true, false, length,
  drop, erase_if, count_if, count_if-append, ◌==◌, arith, some, Bool-cases, ==_ne, ltb,
}
use mathlib.Core.Path.{subst}
use nfd.Table.DeadNonceList.{
  DeadNonceList, init, fresh, contains, evict_entries, add_entry, add, mark, adjust_capacity,
  evict_limit, adjusted_capacity, mark_entry, min_lifetime, Event, adds, marks, adjusts, step, run,
}
use nfd.Table.DeadNonceList.Capacity.{IsBounded, add_entry-IsBounded, adjust_capacity_lem}

-- How often an entry occurs.
abbrev pub occurrences : ℕ → List ℕ → ℕ
occurrences e q = count_if (◌==◌ e) q

pub record IsValid (d : DeadNonceList) : Type 0 where
  pub bounded : IsBounded d
  pub unique : (e : ℕ) → e ≢ mark_entry → occurrences e d.queue ≤ 1

occurrences-drop : (e n : ℕ) (q : List ℕ) → occurrences e (drop n q) ≤ occurrences e q
occurrences-drop e zero q = omega arith
occurrences-drop e (suc n) [] = omega arith
occurrences-drop e (suc n) (x ∷ xs) = ground (arith, occurrences-drop e n xs)

occurrences-evict :
    (e : ℕ) (d : DeadNonceList) → occurrences e (evict_entries d).queue ≤ occurrences e d.queue
unfolding evict_entries
occurrences-evict e d =
    ground (arith, occurrences-drop e (min (length d.queue - d.capacity) evict_limit) d.queue)

occurrences_absent : (e : ℕ) (q : List ℕ) → contains e q ≡ false → occurrences e q ≡ 0
unfolding contains
occurrences_absent e [] h = refl
occurrences_absent e (x ∷ xs) h = ground (arith, occurrences_absent e xs)

occurrences-relocate :
    (e x : ℕ) (q : List ℕ)
    → contains x q ≡ true
    → occurrences e (erase_if (◌==◌ x) q ++ x ∷ []) ≡ occurrences e q
unfolding contains
occurrences-relocate e x [] h = absurd (ground arith)
occurrences-relocate e x (y ∷ ys) h =
    ground (arith, count_if-append (◌==◌ e) ys (x ∷ []), occurrences-relocate e x ys)

occurrences-add :
    (e x : ℕ) (d : DeadNonceList)
    → occurrences e d.queue ≤ 1
    → occurrences e (add_entry d x).queue ≤ 1
unfolding add_entry
occurrences-add e x d u = elim (Bool-cases (contains x d.queue)) [
  | inl old ↦ ground (arith, occurrences-relocate e x d.queue)
  | inr new ↦ ground (
    arith,
    occurrences-evict e (record d { queue = d.queue ++ x ∷ [] }),
    count_if-append (◌==◌ e) d.queue (x ∷ []),
    occurrences_absent x d.queue,
  )
]

occurrences-mark :
    (e now : ℕ) (d : DeadNonceList)
    → e ≢ mark_entry
    → occurrences e (mark d now).queue ≡ occurrences e d.queue
unfolding mark
occurrences-mark e now d ne = ground (arith, count_if-append (◌==◌ e) d.queue (0 ∷ []))

occurrences-adjust :
    (e now : ℕ) (d : DeadNonceList)
    → occurrences e (adjust_capacity d now).queue ≤ occurrences e d.queue
unfolding adjust_capacity
occurrences-adjust e now d = occurrences-evict e (record d {
  capacity = adjusted_capacity d.actual_mark_counts d.capacity;
  actual_mark_counts = [];
})

fresh-IsValid : (lifetime now : ℕ) → IsValid (fresh lifetime now)
fresh-IsValid lifetime now = record {
  bounded = (omega arith, omega arith);
  unique = λ e ne. rw (==_ne e 0 ne) (omega arith);
}

pub init-IsValid : (lifetime now : ℕ) {d : DeadNonceList} → init lifetime now ≡ some d → IsValid d
unfolding init
init-IsValid lifetime now h = elim (Bool-cases (ltb lifetime min_lifetime)) [
  | inl short ↦ absurd (ground arith)
  | inr long ↦ subst IsValid (ground arith) (fresh-IsValid lifetime now)
]

mark-IsBounded : (d : DeadNonceList) (now : ℕ) → IsBounded d → IsBounded (mark d now)
unfolding mark
mark-IsBounded d now b = b

module _ {Name : Type 0} (make_entry : Name → ℕ → ℕ) where
  -- Every operation and every timer keeps the capacity within its limits and each entry other
  -- than a mark at most once in the queue.
  pub step-IsValid :
      (d : DeadNonceList) (event : Event Name) → IsValid d → IsValid (step make_entry d event)
  unfolding step add
  step-IsValid d (adds name nonce) v = record {
    bounded = add_entry-IsBounded d (make_entry name nonce) v.bounded;
    unique = λ e ne. occurrences-add e (make_entry name nonce) d (v.unique e ne);
  }
  step-IsValid d (marks now) v = record {
    bounded = mark-IsBounded d now v.bounded;
    unique = λ e ne. omega (arith, occurrences-mark e now d ne, v.unique e ne);
  }
  step-IsValid d (adjusts now) v = record {
    bounded = (adjust_capacity_lem d now v.bounded).0;
    unique = λ e ne. omega (arith, occurrences-adjust e now d, v.unique e ne);
  }

  run-IsValid :
      (d : DeadNonceList) (events : List (Event Name))
      → IsValid d
      → IsValid (run make_entry d events)
  unfolding run
  run-IsValid d [] v = v
  run-IsValid d (e ∷ events) v = run-IsValid (step make_entry d e) events (step-IsValid d e v)

  -- After construction and any history of additions and timers, the capacity lies within its hard
  -- limits and no entry other than a mark occurs twice.
  pub run-init-IsValid :
      (lifetime now : ℕ) {d : DeadNonceList} (events : List (Event Name))
      → init lifetime now ≡ some d
      → IsValid (run make_entry d events)
  run-init-IsValid lifetime now {d} events h = run-IsValid d events (init-IsValid lifetime now h)
