-- ===== src/Table/DeadNonceList/Recency.antt =====
-- How long an entry stays in the Dead Nonce List (daemon/table/dead-nonce-list.cpp, add,
-- evictEntries and mark).
use nfd.Base.{
  ℕ, zero, suc, ◌+◌, ◌-◌, ◌≤◌, ◌<◌, min, ◌≡◌, ◌≢◌, refl, inl, inr, List, [], ◌∷◌, ◌++◌, Bool, true,
  false, ◌&&◌, ◌||◌, length, drop, erase_if, length-append, ltb, leb, ◌==◌, arith, Bool-cases,
}
use nfd.Table.DeadNonceList.{
  DeadNonceList, contains, evict_entries, add_entry, add, has, mark, mark_entry, evict_limit,
}

-- `e` is among the last `k` elements.
abbrev pub recent : ℕ → ℕ → List ℕ → Bool
recent e k [] = false
recent e k (x ∷ xs) = (e == x && ltb (length xs) k) || recent e k xs

recent-contains : (e k : ℕ) (q : List ℕ) → recent e k q ≡ true → contains e q ≡ true
unfolding contains
recent-contains e k [] h = h
recent-contains e k (x ∷ xs) h = ground (arith, recent-contains e k xs)

recent-push : (e k y : ℕ) (q : List ℕ) → recent e k q ≡ true → recent e (suc k) (q ++ y ∷ []) ≡ true
recent-push e k y [] h = ground arith
recent-push e k y (x ∷ xs) h = ground (arith, length-append xs (y ∷ []), recent-push e k y xs)

recent-push_self : (e k : ℕ) (q : List ℕ) → recent e (suc k) (q ++ e ∷ []) ≡ true
recent-push_self e k [] = ground arith
recent-push_self e k (x ∷ xs) = ground (arith, recent-push_self e k xs)

length-erase-le : (y : ℕ) (q : List ℕ) → length (erase_if (◌==◌ y) q) ≤ length q
length-erase-le y [] = omega arith
length-erase-le y (x ∷ xs) = ground (arith, length-erase-le y xs)

recent-erase :
    (e k y : ℕ) (q : List ℕ) → e ≢ y → recent e k q ≡ true → recent e k (erase_if (◌==◌ y) q) ≡ true
recent-erase e k y [] ne h = h
recent-erase e k y (x ∷ xs) ne h = ground (arith, length-erase-le y xs, recent-erase e k y xs ne)

recent-drop :
    (e k n : ℕ) (q : List ℕ) → n + k ≤ length q → recent e k q ≡ true → recent e k (drop n q) ≡ true
recent-drop e k zero q le h = h
recent-drop e k (suc n) [] le h = h
recent-drop e k (suc n) (x ∷ xs) le h = ground (arith, recent-drop e k n xs)

recent-evict :
    (e k : ℕ) (d : DeadNonceList)
    → k ≤ d.capacity
    → recent e k d.queue ≡ true
    → recent e k (evict_entries d).queue ≡ true
unfolding evict_entries
recent-evict e k d le h = elim (Bool-cases (leb (length d.queue) d.capacity)) [
  | inl small ↦ ground arith
  | inr large ↦
      ground (arith, recent-drop e k (min (length d.queue - d.capacity) evict_limit) d.queue)
]

evict_entries-capacity : (d : DeadNonceList) → (evict_entries d).capacity ≡ d.capacity
unfolding evict_entries
evict_entries-capacity d = ground arith

pub add_entry-capacity : (d : DeadNonceList) (e : ℕ) → (add_entry d e).capacity ≡ d.capacity
unfolding add_entry
add_entry-capacity d e =
    ground (arith, evict_entries-capacity (record d { queue = d.queue ++ e ∷ [] }))

recent-add_self :
    (d : DeadNonceList) (e : ℕ) → 0 < d.capacity → recent e 1 (add_entry d e).queue ≡ true
unfolding add_entry
recent-add_self d e pos = ground (
  arith,
  recent-push_self e 0 d.queue,
  recent-push_self e 0 (erase_if (◌==◌ e) d.queue),
  recent-evict e 1 (record d { queue = d.queue ++ e ∷ [] }),
)

recent-weaken : (e k : ℕ) (q : List ℕ) → recent e k q ≡ true → recent e (suc k) q ≡ true
recent-weaken e k [] h = h
recent-weaken e k (x ∷ xs) h = ground (arith, recent-weaken e k xs)

recent-one : (e k : ℕ) (q : List ℕ) → recent e 1 q ≡ true → recent e (suc k) q ≡ true
recent-one e zero q h = h
recent-one e (suc k) q h = recent-weaken e (suc k) q (recent-one e k q h)

recent-add :
    (d : DeadNonceList) (e x k : ℕ)
    → k < d.capacity
    → recent e k d.queue ≡ true
    → recent e (suc k) (add_entry d x).queue ≡ true
unfolding add_entry
recent-add d e x k lt h = elim (Bool-cases (e == x)) [
  | inl same ↦ recent-one e k _ (ground (arith, recent-add_self d e))
  | inr other ↦ ground (
    arith,
    recent-push e k x d.queue,
    recent-push e k x (erase_if (◌==◌ x) d.queue),
    recent-erase e k x d.queue,
    recent-evict e (suc k) (record d { queue = d.queue ++ x ∷ [] }),
  )
]

pub data Change (Name : Type 0) : Type 0 where
  adds : Name → ℕ → Change Name
  marks : ℕ → Change Name

module _ {Name : Type 0} (make_entry : Name → ℕ → ℕ) where
  -- One addition, or the mark timer.
  unfoldable change : DeadNonceList → Change Name → DeadNonceList
  change d (adds name nonce) = add make_entry d name nonce
  change d (marks now) = mark d now

  unfoldable pub change_all : DeadNonceList → List (Change Name) → DeadNonceList
  unfolding change
  change_all d [] = d
  change_all d (c ∷ rest) = change_all (change d c) rest

  change-capacity : (d : DeadNonceList) (c : Change Name) → (change d c).capacity ≡ d.capacity
  unfolding change add mark
  change-capacity d (adds name nonce) = add_entry-capacity d (make_entry name nonce)
  change-capacity d (marks now) = refl

  recent-change :
      (d : DeadNonceList) (e k : ℕ) (c : Change Name)
      → k < d.capacity
      → recent e k d.queue ≡ true
      → recent e (suc k) (change d c).queue ≡ true
  unfolding change add mark
  recent-change d e k (adds name nonce) lt h = recent-add d e (make_entry name nonce) k lt h
  recent-change d e k (marks now) lt h = recent-push e k mark_entry d.queue h

  recent-change_all :
      (d : DeadNonceList) (e k : ℕ) (more : List (Change Name))
      → k + length more ≤ d.capacity
      → recent e k d.queue ≡ true
      → recent e (k + length more) (change_all d more).queue ≡ true
  unfolding change_all
  recent-change_all d e k [] le h = ground arith
  recent-change_all d e k (c ∷ rest) le h = ground (
    arith,
    recent-change d e k c,
    change-capacity d c,
    recent-change_all (change d c) e (suc k) rest,
  )

  -- While the capacity is not adjusted, a pair that was added is found after any sequence of fewer
  -- than `capacity` further additions and marks, whatever these are: neither eviction nor
  -- relocation loses it.
  pub has-change_all :
      (d : DeadNonceList) (name : Name) (nonce : ℕ) (more : List (Change Name))
      → length more < d.capacity
      → has make_entry (change_all (add make_entry d name nonce) more) name nonce ≡ true
  unfolding has add
  has-change_all d name nonce more lt =
      let e = make_entry name nonce in
      recent-contains e (1 + length more) (change_all (add_entry d e) more).queue (
        recent-change_all (add_entry d e) e 1 more (omega (arith, add_entry-capacity d e))
          (recent-add_self d e (omega arith)))
