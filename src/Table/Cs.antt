-- ===== src/Table/Cs.antt =====
-- daemon/table/cs.{hpp,cpp}, cs-entry.{hpp,cpp}, cs-policy.cpp and cs-policy-lru.cpp: the Content
-- Store with the LRU replacement policy.
--
-- The ordered set of entries is a list in the order of the set. An iterator (EntryRef) is the
-- identity of a node of the set, a number that no other node ever has. The names of ndn-cxx enter
-- by `CsOps`: `compare` is Name::compare, `compare_but_last` compares all but the last component of
-- the query, `compare_digest` its last component with a digest. `lower_bound` is the first entry
-- that is not less than the query, as in a sorted set. The signal beforeEvict erases the entry.
-- `now` is the steady clock at the call.
pub mod Lru
pub mod Synced
pub mod Use
pub mod History
use Prim.Native.Nat.{compare, Ordering}
use nfd.Base.{
  ℕ, ◌+◌, ◌-◌, ◌≡◌, Bool, true, false, ◌&&◌, ◌||◌, not, List, [], ◌∷◌, ◌++◌, Option, some, none,
  find_if, erase_if, update_if, any_of, length, take, leb, ltb, ◌==◌, if◌then◌else◌,
}
use nfd.Base.Keyed.{has_key}
use nfd.Packet.{Interest, Data, no_cache, other_policy, ms}

pub record Entry (Name : Type 0) : Type 0 where
  pub node : ℕ
  pub packet : Data Name
  pub is_unsolicited : Bool
  pub fresh_until : ℕ

abbrev pub node_of : {Name : Type 0} → Entry Name → ℕ
node_of e = e.node

pub record CsOps (Name : Type 0) : Type 0 where
  pub compare_names : Name → Name → Ordering
  pub compare_but_last : Name → Name → Ordering
  pub compare_digest : Name → ℕ → Ordering
  pub is_full_name : Name → Bool
  pub is_nonempty : Name → Bool
  pub successor : Name → Name
  pub matches_data : Interest Name → Data Name → Bool

-- `cmp != 0 ? cmp : next`
abbrev pub then_compare : Ordering → Ordering → Ordering
then_compare Ordering.eq next = next
then_compare Ordering.lt next = Ordering.lt
then_compare Ordering.gt next = Ordering.gt

abbrev pub is_lt : Ordering → Bool
is_lt Ordering.lt = true
is_lt Ordering.eq = false
is_lt Ordering.gt = false

abbrev pub is_gt : Ordering → Bool
is_gt Ordering.gt = true
is_gt Ordering.eq = false
is_gt Ordering.lt = false

abbrev pub is_eq : Ordering → Bool
is_eq Ordering.eq = true
is_eq Ordering.lt = false
is_eq Ordering.gt = false

abbrev pub drop_while {ℓ} : {A : Type ℓ} → (A → Bool) → List A → List A
drop_while p [] = []
drop_while p (x ∷ xs) = if p x then drop_while p xs else x ∷ xs

abbrev pub take_while {ℓ} : {A : Type ℓ} → (A → Bool) → List A → List A
take_while p [] = []
take_while p (x ∷ xs) = if p x then x ∷ take_while p xs else []

pub record Cs (Name : Type 0) : Type 0 where
  pub table : List (Entry Name)
  pub next_node : ℕ
  pub queue : List ℕ
  pub limit : ℕ
  pub should_admit : Bool
  pub should_serve : Bool

module _ {Name : Type 0} where
  unfoldable pub is_fresh : Entry Name → ℕ → Bool
  is_fresh e now = leb now e.fresh_until

  unfoldable pub update_fresh_until : ℕ → Entry Name → Entry Name
  update_fresh_until now e = record e { fresh_until = now + ms e.packet.freshness_period }

  -- `evictEntries`, with the erasure by the signal.
  unfoldable pub evict_entries : ℕ → List (Entry Name) → List ℕ → List (Entry Name) × List ℕ
  evict_entries limit table [] = (table, [])
  evict_entries limit table (i ∷ queue) =
      if leb (length table) limit
      then (table, i ∷ queue)
      else evict_entries limit (erase_if (has_key node_of i) table) queue

  abbrev pub evict : Cs Name → Cs Name
  evict cs =
      let (table, queue) = evict_entries cs.limit cs.table cs.queue in
      record cs { table = table; queue = queue }

  unfoldable pub set_limit : Cs Name → ℕ → Cs Name
  unfolding evict_entries
  set_limit cs limit = evict (record cs { limit = limit })

-- `insertToQueue`: push_back does nothing if the element is there, and an old one is relocated.
unfoldable pub insert_to_queue : ℕ → Bool → List ℕ → List ℕ
insert_to_queue i is_new_entry queue =
    if any_of (◌==◌ i) queue
    then (if is_new_entry then queue else erase_if (◌==◌ i) queue ++ i ∷ [])
    else queue ++ i ∷ []

module _ {Name : Type 0} where
  unfoldable pub do_after_insert : Cs Name → ℕ → Cs Name
  unfolding insert_to_queue evict_entries
  do_after_insert cs i = evict (record cs { queue = insert_to_queue i true cs.queue })

  unfoldable pub do_after_refresh : Cs Name → ℕ → Cs Name
  unfolding insert_to_queue
  do_after_refresh cs i = record cs { queue = insert_to_queue i false cs.queue }

  unfoldable pub do_before_erase : Cs Name → ℕ → Cs Name
  do_before_erase cs i = record cs { queue = erase_if (◌==◌ i) cs.queue }

  unfoldable pub do_before_use : Cs Name → ℕ → Cs Name
  unfolding insert_to_queue
  do_before_use cs i = record cs { queue = insert_to_queue i false cs.queue }

  module _ (ops : CsOps Name) where
    unfoldable pub can_satisfy : Entry Name → Interest Name → ℕ → Bool
    unfolding is_fresh
    can_satisfy e interest now =
        ops.matches_data interest e.packet && not (interest.must_be_fresh && not (is_fresh e now))

    unfoldable pub compare_query_with_data : Name → Data Name → Ordering
    compare_query_with_data query packet =
        if ops.is_full_name query
        then then_compare (ops.compare_but_last query packet.name)
            (ops.compare_digest query packet.digest)
        else then_compare (ops.compare_names query packet.name) Ordering.lt

    unfoldable pub compare_data_with_data : Data Name → Data Name → Ordering
    compare_data_with_data lhs rhs =
        then_compare (ops.compare_names lhs.name rhs.name) (compare lhs.digest rhs.digest)

    -- entry < queryName
    abbrev pub is_less_than_query : Name → Entry Name → Bool
    is_less_than_query query e = is_gt (compare_query_with_data query e.packet)

    abbrev pub is_same_data : Data Name → Entry Name → Bool
    is_same_data packet e = is_eq (compare_data_with_data packet e.packet)

    -- The place of a new node in the set.
    unfoldable pub insert_sorted : Entry Name → List (Entry Name) → List (Entry Name)
    insert_sorted e [] = e ∷ []
    insert_sorted e (x ∷ xs) =
        if is_lt (compare_data_with_data e.packet x.packet)
        then e ∷ x ∷ xs
        else x ∷ insert_sorted e xs

    unfoldable pub find_prefix_range : List (Entry Name) → Name → List (Entry Name)
    unfolding compare_query_with_data
    find_prefix_range table prefix =
        let first = drop_while (is_less_than_query prefix) table in
        if ops.is_nonempty prefix
        then take_while (is_less_than_query (ops.successor prefix)) first
        else first

    abbrev pub is_no_cache : Data Name → Bool
    is_no_cache packet = elim packet.cache_policy [
      | none ↦ false
      | some no_cache ↦ true
      | some other_policy ↦ false
    ]

    -- The refresh of an existing entry.
    abbrev pub refresh : Bool → ℕ → Entry Name → Entry Name
    refresh is_unsolicited now e = record e {
      fresh_until = now + ms e.packet.freshness_period;
      is_unsolicited = e.is_unsolicited && is_unsolicited;
    }

    abbrev pub new_entry : ℕ → Data Name → Bool → ℕ → Entry Name
    new_entry node packet is_unsolicited now = record {
      node = node;
      packet = packet;
      is_unsolicited = is_unsolicited;
      fresh_until = now + ms packet.freshness_period;
    }

    -- `emplace` and what follows it.
    unfoldable pub emplace : Cs Name → Data Name → Bool → ℕ → Cs Name
    unfolding do_after_insert do_after_refresh
    emplace cs packet is_unsolicited now = elim (find_if (is_same_data packet) cs.table) [
      | some e ↦
          do_after_refresh
            (record cs {
              table = update_if (has_key node_of e.node) (refresh is_unsolicited now) cs.table;
            })
            e.node
      | none ↦
          do_after_insert
            (record cs {
              table = insert_sorted (new_entry cs.next_node packet is_unsolicited now) cs.table;
              next_node = cs.next_node + 1;
            })
            cs.next_node
    ]

    unfoldable pub insert : Cs Name → Data Name → Bool → ℕ → Cs Name
    insert cs packet is_unsolicited now =
        if not cs.should_admit || cs.limit == 0
        then cs
        else if is_no_cache packet
        then cs
        else emplace cs packet is_unsolicited now

    unfoldable pub erase_all : List (Entry Name) → Cs Name → Cs Name
    unfolding do_before_erase
    erase_all [] cs = cs
    erase_all (e ∷ es) cs =
        let cs' = do_before_erase cs e.node in
        erase_all es (record cs' { table = erase_if (has_key node_of e.node) cs'.table })

    -- The store after the call, and the number of entries erased.
    unfoldable pub erase_impl : Cs Name → Name → ℕ → Cs Name × ℕ
    unfolding erase_all find_prefix_range
    erase_impl cs prefix limit =
        let victims = take limit (find_prefix_range cs.table prefix) in
        (erase_all victims cs, length victims)

    -- The match of `findImpl`; `find` does the rest of it.
    unfoldable pub find_impl : Cs Name → Interest Name → ℕ → Option (Entry Name)
    unfolding can_satisfy find_prefix_range
    find_impl cs interest now =
        if not cs.should_serve || cs.limit == 0
        then none
        else find_if (λ e. can_satisfy e interest now) (find_prefix_range cs.table interest.name)

    -- The store after the call, and the Data of a hit.
    unfoldable pub find : Cs Name → Interest Name → ℕ → Cs Name × Option (Data Name)
    unfolding find_impl do_before_use
    find cs interest now = elim (find_impl cs interest now) [
      | none ↦ (cs, none)
      | some e ↦ (do_before_use cs e.node, some e.packet)
    ]

  unfoldable pub enable_admit : Cs Name → Bool → Cs Name
  enable_admit cs should_admit = record cs { should_admit = should_admit }

  unfoldable pub enable_serve : Cs Name → Bool → Cs Name
  enable_serve cs should_serve = record cs { should_serve = should_serve }
