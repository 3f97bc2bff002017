-- ===== src/Table/DeadNonceList/Capacity.antt =====
-- The capacity of the Dead Nonce List and the size of its queue
-- (daemon/table/dead-nonce-list.cpp, constructor, adjustCapacity, evictEntries).
use nfd.Base.{
  ℕ, ◌+◌, ◌-◌, ◌≤◌, ◌<◌, min, max, ◌≡◌, ◌⊎◌, some, none, List, [], ◌∷◌, ◌++◌, true, false, length,
  length-append, length-drop, any_of, erase_if, leb, ◌==◌, arith, if◌then◌else◌, Bool-cases, All,
  ltb, ltb→lt, refl, inl, inr,
}
use nfd.Table.DeadNonceList.{
  DeadNonceList, init, fresh, contains, evict_entries, add_entry, adjust_capacity, evict_limit,
  min_capacity, max_capacity, min_lifetime, capacity_down, capacity_up, adjusted_capacity,
}

-- The hard limits of the capacity.
abbrev pub IsBounded : DeadNonceList → Type 0
IsBounded d = (min_capacity ≤ d.capacity) × (d.capacity ≤ max_capacity)

length-evict :
    (d : DeadNonceList)
    → length (evict_entries d).queue
      ≡ max (min (length d.queue) d.capacity) (length d.queue - evict_limit)
unfolding evict_entries
length-evict d = elim (Bool-cases (leb (length d.queue) d.capacity)) [
  | inl small ↦ ground arith
  | inr large ↦ ground (arith, length-drop (min (length d.queue - d.capacity) evict_limit) d.queue)
]

evict_entries_fields :
    (d : DeadNonceList)
    → ((evict_entries d).capacity ≡ d.capacity)
      × ((evict_entries d).actual_mark_counts ≡ d.actual_mark_counts)
      × ((evict_entries d).adjust_capacity_interval ≡ d.adjust_capacity_interval)
unfolding evict_entries
evict_entries_fields d = ground arith

length-erase :
    (e : ℕ) (q : List ℕ) → contains e q ≡ true → length (erase_if (◌==◌ e) q) + 1 ≡ length q
unfolding contains
length-erase e [] h = absurd (ground arith)
length-erase e (x ∷ xs) h = ground (arith, length-erase e xs)

-- After an addition the queue is as long as before if the entry was there already; otherwise it
-- is one longer, cut down to the capacity, but by at most 64 entries.
length-add_entry :
    (d : DeadNonceList) (e : ℕ)
    → length (add_entry d e).queue ≡ (
        if contains e d.queue
        then length d.queue
        else max (min (length d.queue + 1) d.capacity) (length d.queue + 1 - evict_limit))
unfolding add_entry
length-add_entry d e = elim (Bool-cases (contains e d.queue)) [
  | inl old ↦
      ground (arith, length-append (erase_if (◌==◌ e) d.queue) (e ∷ []), length-erase e d.queue)
  | inr new ↦
      ground (
        arith,
        length-evict (record d { queue = d.queue ++ e ∷ [] }),
        length-append d.queue (e ∷ []),
      )
]

adjusted-IsBounded :
    (counts : List ℕ) (c : ℕ)
    → min_capacity ≤ c
    → c ≤ max_capacity
    → (min_capacity ≤ adjusted_capacity counts c) × (adjusted_capacity counts c ≤ max_capacity)
adjusted-IsBounded counts c lo hi = elim (Bool-cases (any_of (λ x. leb x 5) counts)) [
  | inl low ↦ elim (Bool-cases (any_of (leb 5) counts)) [
    | inl high ↦ rw (low, high) (lo, hi)
    | inr none_high ↦ rw (low, none_high) (omega arith, omega arith)
  ]
  | inr none_low ↦ rw none_low (omega arith, omega arith)
]

none_le→All : (counts : List ℕ) → any_of (λ c. leb c 5) counts ≡ false → All (λ c. 5 < c) counts
none_le→All [] h = tt
none_le→All (c ∷ cs) h = (ground arith, none_le→All cs (ground arith))

none_ge→All : (counts : List ℕ) → any_of (leb 5) counts ≡ false → All (λ c. c < 5) counts
none_ge→All [] h = tt
none_ge→All (c ∷ cs) h = (ground arith, none_ge→All cs (ground arith))

adjusted-lt :
    (counts : List ℕ) (c : ℕ)
    → c ≤ max_capacity
    → adjusted_capacity counts c < c
    → All (λ m. 5 < m) counts
adjusted-lt counts c hi h = elim (Bool-cases (any_of (λ x. leb x 5) counts)) [
  | inr above ↦ none_le→All counts above
  | inl low ↦ elim (Bool-cases (any_of (leb 5) counts)) [
    | inl high ↦
        let e : adjusted_capacity counts c ≡ c = rw (low, high) refl in absurd (omega (arith, e))
    | inr below ↦
        let e : adjusted_capacity counts c ≡ min max_capacity (capacity_up c) =
          rw (low, below) refl in
        absurd (omega (arith, e))
  ]
]

lt-adjusted :
    (counts : List ℕ) (c : ℕ)
    → min_capacity ≤ c
    → c < adjusted_capacity counts c
    → All (λ m. m < 5) counts
lt-adjusted counts c lo h = elim (Bool-cases (any_of (λ x. leb x 5) counts)) [
  | inr above ↦
      let e : adjusted_capacity counts c ≡ max min_capacity (capacity_down c) = rw above refl in
      absurd (omega (arith, e))
  | inl low ↦ elim (Bool-cases (any_of (leb 5) counts)) [
    | inl high ↦
        let e : adjusted_capacity counts c ≡ c = rw (low, high) refl in absurd (omega (arith, e))
    | inr below ↦ none_ge→All counts below
  ]
]

-- The capacity timer keeps the capacity within its hard limits, forgets the counts, and is set
-- again. The capacity falls only if every mark count is above the expected one, and rises only if
-- every count is below it.
pub adjust_capacity_lem :
    (d : DeadNonceList) (now : ℕ)
    → IsBounded d
    → let d' = adjust_capacity d now in
      IsBounded d'
      × (d'.actual_mark_counts ≡ [])
      × (d'.capacity < d.capacity → All (λ c. 5 < c) d.actual_mark_counts)
      × (d.capacity < d'.capacity → All (λ c. c < 5) d.actual_mark_counts)
      × (d'.adjust_capacity_event ≡ now + d.adjust_capacity_interval)
unfolding adjust_capacity
adjust_capacity_lem d now b =
    let (cap, counts, interval) = evict_entries_fields (record d {
      capacity = adjusted_capacity d.actual_mark_counts d.capacity;
      actual_mark_counts = [];
    }) in
    (
      rw cap (adjusted-IsBounded d.actual_mark_counts d.capacity b.0 b.1),
      counts,
      λ lt. adjusted-lt d.actual_mark_counts d.capacity b.1 (rw cap at lt),
      λ lt. lt-adjusted d.actual_mark_counts d.capacity b.0 (rw cap at lt),
      rw interval refl,
    )

pub add_entry-IsBounded : (d : DeadNonceList) (e : ℕ) → IsBounded d → IsBounded (add_entry d e)
unfolding add_entry
add_entry-IsBounded d e b =
    ground (arith, evict_entries_fields (record d { queue = d.queue ++ e ∷ [] }))

-- Construction: a lifetime below the minimum is refused, any other gives a list within its limits.
init_lem :
    (lifetime now : ℕ)
    → ((lifetime < min_lifetime) × (init lifetime now ≡ none))
      ⊎ ((d : DeadNonceList) × (init lifetime now ≡ some d)
          × (d.lifetime ≡ lifetime)
          × IsBounded d
          × (length d.queue ≤ d.capacity))
unfolding init
init_lem lifetime now = elim (Bool-cases (ltb lifetime min_lifetime)) [
  | inl short ↦ inl (ltb→lt _ _ short, rw short refl)
  | inr long ↦ inr (fresh lifetime now, rw long refl, refl, (omega arith, omega arith), omega arith)
]
