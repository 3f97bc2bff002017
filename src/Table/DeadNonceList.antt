-- ===== src/Table/DeadNonceList.antt =====
-- daemon/table/dead-nonce-list.{hpp,cpp}: the Dead Nonce List, a FIFO of hashed (name, Nonce)
-- pairs with marks that estimate how long an entry stays, and a capacity adapted to the estimate.
--
-- `make_entry` (makeEntry, the hash of a name and a Nonce) is a parameter. The multi-index
-- container is its sequenced index, a list in insertion order; the hashed index finds the first
-- of the equal entries. The multiset of mark counts is a list. The two timers are the times at
-- which they are due. Times are nanoseconds. The factors 1.2 and 0.9 are the fractions 6 / 5 and
-- 9 / 10: up to MAX_CAPACITY the products in double precision have the same integer part.
pub mod Recency
pub mod Capacity
pub mod Uniqueness
use nfd.Base.{
  ℕ, ◌+◌, ◌-◌, ◌*◌, ◌/◌, ◌^◌, min, max, List, [], ◌∷◌, ◌++◌, Bool, not, Option, some, none, length,
  drop, replicate, any_of, erase_if, count_if, leb, ltb, ◌==◌, if◌then◌else◌,
}

abbrev pub min_lifetime : ℕ
min_lifetime = 50000000

abbrev pub initial_capacity : ℕ
initial_capacity = 2 ^ 14

abbrev pub min_capacity : ℕ
min_capacity = 2 ^ 10

abbrev pub max_capacity : ℕ
max_capacity = 2 ^ 24

abbrev pub mark_entry : ℕ
mark_entry = 0

abbrev pub expected_mark_count : ℕ
expected_mark_count = 5

abbrev pub evict_limit : ℕ
evict_limit = 64

abbrev pub capacity_up : ℕ → ℕ
capacity_up c = c * 6 / 5

abbrev pub capacity_down : ℕ → ℕ
capacity_down c = c * 9 / 10

pub record DeadNonceList : Type 0 where
  pub lifetime : ℕ
  pub capacity : ℕ
  pub queue : List ℕ
  pub actual_mark_counts : List ℕ
  pub mark_interval : ℕ
  pub adjust_capacity_interval : ℕ
  pub mark_event : ℕ
  pub adjust_capacity_event : ℕ

-- The member initialisers, and the marks that the constructor pushes.
abbrev pub fresh : ℕ → ℕ → DeadNonceList
fresh lifetime now = record {
  lifetime = lifetime;
  capacity = initial_capacity;
  queue = replicate expected_mark_count mark_entry;
  actual_mark_counts = [];
  mark_interval = lifetime / expected_mark_count;
  adjust_capacity_interval = lifetime;
  mark_event = now + lifetime / expected_mark_count;
  adjust_capacity_event = now + lifetime;
}

-- The constructor; `none` is the exception `invalid_argument`.
unfoldable pub init : ℕ → ℕ → Option DeadNonceList
init lifetime now = if ltb lifetime min_lifetime then none else some (fresh lifetime now)

pub count_marks : DeadNonceList → ℕ
count_marks d = count_if (◌==◌ mark_entry) d.queue

pub size : DeadNonceList → ℕ
size d = length d.queue - count_marks d

unfoldable pub contains : ℕ → List ℕ → Bool
contains e q = any_of (◌==◌ e) q

pub evict_entries : DeadNonceList → DeadNonceList
evict_entries d =
    if leb (length d.queue) d.capacity
    then d
    else record d { queue = drop (min (length d.queue - d.capacity) evict_limit) d.queue }

-- `add` on the hashed entry: a duplicate is relocated to the end.
pub add_entry : DeadNonceList → ℕ → DeadNonceList
unfolding contains
add_entry d e =
    if contains e d.queue
    then record d { queue = erase_if (◌==◌ e) d.queue ++ e ∷ [] }
    else evict_entries (record d { queue = d.queue ++ e ∷ [] })

module _ {Name : Type 0} (make_entry : Name → ℕ → ℕ) where
  unfoldable pub has : DeadNonceList → Name → ℕ → Bool
  has d name nonce = contains (make_entry name nonce) d.queue

  unfoldable pub add : DeadNonceList → Name → ℕ → DeadNonceList
  add d name nonce = add_entry d (make_entry name nonce)

-- The mark timer fires at `now`.
pub mark : DeadNonceList → ℕ → DeadNonceList
unfolding count_marks
mark d now = record d {
  queue = d.queue ++ mark_entry ∷ [];
  actual_mark_counts =
      count_marks (record d { queue = d.queue ++ mark_entry ∷ [] }) ∷ d.actual_mark_counts;
  mark_event = now + d.mark_interval;
}

-- `equal_range(n).second == begin()`: no count is n or less.
abbrev pub all_above : ℕ → List ℕ → Bool
all_above n counts = not (any_of (λ c. leb c n) counts)

-- `equal_range(n).first == end()`: no count is n or more.
abbrev pub all_below : ℕ → List ℕ → Bool
all_below n counts = not (any_of (leb n) counts)

abbrev pub adjusted_capacity : List ℕ → ℕ → ℕ
adjusted_capacity counts c =
    if all_above expected_mark_count counts
    then max min_capacity (capacity_down c)
    else if all_below expected_mark_count counts
    then min max_capacity (capacity_up c)
    else c

-- The capacity timer fires at `now`.
pub adjust_capacity : DeadNonceList → ℕ → DeadNonceList
unfolding evict_entries
adjust_capacity d now =
    let d' = evict_entries (record d {
      capacity = adjusted_capacity d.actual_mark_counts d.capacity;
      actual_mark_counts = [];
    }) in
    record d' { adjust_capacity_event = now + d'.adjust_capacity_interval }

-- What can happen to the list: an addition, or one of the timers.
pub data Event (Name : Type 0) : Type 0 where
  adds : Name → ℕ → Event Name
  marks : ℕ → Event Name
  adjusts : ℕ → Event Name

module _ {Name : Type 0} (make_entry : Name → ℕ → ℕ) where
  unfoldable pub step : DeadNonceList → Event Name → DeadNonceList
  step d (adds name nonce) = add make_entry d name nonce
  step d (marks now) = mark d now
  step d (adjusts now) = adjust_capacity d now

  pub run : DeadNonceList → List (Event Name) → DeadNonceList
  run d [] = d
  run d (e ∷ events) = run (step d e) events
