-- ===== src/Table/Fib/NextHops.antt =====
-- The next hops of a FIB entry (daemon/table/fib-entry.cpp).

use nfd.Base.Permuted.{count-perm, find-perm}
use nfd.Base.{
  ℕ, zero, suc, ◌≤◌, ◌≡◌, refl, ◌∙◌, sym, ◌≢◌, inl, inr, true, false, not, List, [], ◌∷◌, ◌++◌,
  some, none, find_if, erase_if, ◌==◌, if◌then◌else◌, arith, Option-cases, get_elem?,
  count_if-append, ==_refl, ==_ne,
}
use nfd.Base.Keyed.{
  has_key, IsDistinct, erase-IsDistinct, find-erase_self, find-erase_ne, count-update,
  find-update_self, find-update_ne, count_absent,
}
use nfd.Packet.{Face}
use nfd.Table.Fib.{
  NextHop, hop_face, Entry, IsSorted, IsSort, find_next_hop, has_next_hop, upsert_next_hop,
  add_or_update_next_hop, remove_next_hop,
}

-- The next hops are in the order of their costs, and no face has two.
pub record IsValid {Name : Type 0} (e : Entry Name) : Type 0 where
  pub sorted : IsSorted e.next_hops
  pub distinct : IsDistinct hop_face e.next_hops

NextHop-set : IsSet NextHop
NextHop-set = hlevel

find_append_absent :
    (k : ℕ) (xs : List NextHop) (h : NextHop)
    → find_if (has_key hop_face k) xs ≡ none
    → find_if (has_key hop_face k) (xs ++ h ∷ []) ≡ (if hop_face h == k then some h else none)
find_append_absent k [] h a = refl
find_append_absent k (x ∷ xs) h a = ground (arith, find_append_absent k xs h)

find_append_ne :
    (k : ℕ) (xs : List NextHop) (h : NextHop)
    → (hop_face h == k) ≡ false
    → find_if (has_key hop_face k) (xs ++ h ∷ []) ≡ find_if (has_key hop_face k) xs
find_append_ne k [] h ne = rw ne refl
find_append_ne k (x ∷ xs) h ne = ground (arith, find_append_ne k xs h)

upsert-IsDistinct :
    (face : Face) (cost : ℕ) (hops : List NextHop)
    → IsDistinct hop_face hops
    → IsDistinct hop_face (upsert_next_hop face cost hops)
unfolding upsert_next_hop
upsert-IsDistinct face cost hops d k =
    elim (Option-cases (find_if (has_key hop_face face.ref) hops)) [
      | inl absent ↦
          rw (absent, upsert_next_hop)
            (ground (
              arith,
              count_if-append (has_key hop_face k) hops
                  ((record { face = face; cost = cost }) ∷ []),
              count_absent hop_face face.ref hops,
              d k,
            ))
      | inr (h, found) ↦
          rw (found, upsert_next_hop)
            (omega (
              arith,
              count-update hop_face (λ h. record h { cost = cost }) (λ h. refl) face.ref k hops,
              d k,
            ))
    ]

find-upsert_self :
    (face : Face) (cost : ℕ) (hops : List NextHop)
    → (h : NextHop) × (find_if (has_key hop_face face.ref) (upsert_next_hop face cost hops)
        ≡ some h)
      × (h.cost ≡ cost)
unfolding upsert_next_hop
find-upsert_self face cost hops = elim (Option-cases (find_if (has_key hop_face face.ref) hops)) [
  | inl absent ↦ (
    record { face = face; cost = cost },
    rw (absent, upsert_next_hop)
        (find_append_absent face.ref hops (record { face = face; cost = cost }) absent
          ∙ rw (==_refl face.ref) refl),
    refl,
  )
  | inr (h, found) ↦ (
    record h { cost = cost },
    rw (found, upsert_next_hop)
        (find-update_self hop_face (λ h. record h { cost = cost }) (λ h. refl) face.ref hops h
          found),
    refl,
  )
]

find-upsert_ne :
    (face : Face) (cost k : ℕ) (hops : List NextHop)
    → k ≢ face.ref
    → find_if (has_key hop_face k) (upsert_next_hop face cost hops)
      ≡ find_if (has_key hop_face k) hops
unfolding upsert_next_hop
find-upsert_ne face cost k hops ne =
    elim (Option-cases (find_if (has_key hop_face face.ref) hops)) [
      | inl absent ↦
          rw (absent, upsert_next_hop)
            (find_append_ne k hops (record { face = face; cost = cost })
              (==_ne face.ref k (λ e. ne (sym e))))
      | inr (h, found) ↦
          rw (found, upsert_next_hop)
            (find-update_ne hop_face (λ h. record h { cost = cost }) (λ h. refl) face.ref k hops ne)
    ]

pub head_le :
    (a h : NextHop) (hops : List NextHop) (i : ℕ)
    → IsSorted (a ∷ hops)
    → get_elem? hops i ≡ some h
    → a.cost ≤ h.cost
head_le a h [] i s e = absurd (ground arith)
head_le a h (b ∷ hops) zero s e = ground arith
head_le a h (b ∷ hops) (suc i) s e = omega (arith, head_le b h hops i s.1 e)

module _ {Name : Type 0} (sort : List NextHop → List NextHop) (s : IsSort sort) where
  -- `addOrUpdateNextHop` leaves the entry sorted by cost and with at most one next hop for each
  -- face; the face has the given cost, every other face the next hop that it had; and the flag says
  -- whether the face had none.
  pub add_or_update_next_hop_lem :
      (e : Entry Name) (face : Face) (cost : ℕ)
      → IsDistinct hop_face e.next_hops
      → let (e', position, is_new) = add_or_update_next_hop sort e face cost in
        IsValid e'
        × ((h : NextHop) × (find_next_hop e' face ≡ some h) × (h.cost ≡ cost))
        × ((other : Face) → other.ref ≢ face.ref → find_next_hop e' other ≡ find_next_hop e other)
        × (is_new ≡ not (has_next_hop e face))
  unfolding add_or_update_next_hop find_next_hop
  add_or_update_next_hop_lem e face cost d =
      let hops = upsert_next_hop face cost e.next_hops in
      let d' = upsert-IsDistinct face cost e.next_hops d in
      let distinct : IsDistinct hop_face (sort hops) =
        λ k. omega (arith, count-perm (has_key hop_face k) (s.permutes hops), d' k) in
      let (h, found, eq) = find-upsert_self face cost e.next_hops in
      (
        record { sorted = s.sorts hops; distinct = distinct },
        (
          h,
          find-perm hop_face face.ref NextHop-set (s.permutes hops) (distinct face.ref) ∙ found,
          eq,
        ),
        λ other ne.
            find-perm hop_face other.ref NextHop-set (s.permutes hops) (distinct other.ref)
            ∙ find-upsert_ne face cost other.ref e.next_hops ne,
        refl,
      )

erase-IsSorted :
    (k : ℕ) (hops : List NextHop) → IsSorted hops → IsSorted (erase_if (has_key hop_face k) hops)
erase-IsSorted k [] s = tt
erase-IsSorted k (a ∷ []) s = ground arith
erase-IsSorted k (a ∷ b ∷ []) s = ground arith
erase-IsSorted k (a ∷ b ∷ c ∷ hops) s = ground (arith, erase-IsSorted k (b ∷ c ∷ hops) s.1)

module _ {Name : Type 0} where
  pub has_next_hop_absent :
      (e : Entry Name) (face : Face) → find_next_hop e face ≡ none → has_next_hop e face ≡ false
  unfolding has_next_hop
  has_next_hop_absent e face h = rw (h, has_next_hop) refl

  pub has_next_hop_found :
      (e : Entry Name) (face : Face) (h : NextHop)
      → find_next_hop e face ≡ some h
      → has_next_hop e face ≡ true
  unfolding has_next_hop
  has_next_hop_found e face h found = rw (found, has_next_hop) refl

  -- `removeNextHop` reports whether the face had a next hop; afterwards it has none, the others
  -- have theirs, and the entry is still sorted and without duplicates.
  pub remove_next_hop_lem :
      (e : Entry Name) (face other : Face)
      → IsValid e
      → other.ref ≢ face.ref
      → let (e', removed) = remove_next_hop e face in
        IsValid e'
        × (removed ≡ has_next_hop e face)
        × (find_next_hop e' face ≡ none)
        × (find_next_hop e' other ≡ find_next_hop e other)
  unfolding remove_next_hop find_next_hop
  remove_next_hop_lem e face other v ne =
      elim (Option-cases (find_if (has_key hop_face face.ref) e.next_hops)) [
        | inl absent ↦ rw (has_next_hop_absent e face absent) (v, refl, absent, refl)
        | inr (h, found) ↦ rw (has_next_hop_found e face h found) (
          record {
            sorted = erase-IsSorted face.ref e.next_hops v.sorted;
            distinct = erase-IsDistinct hop_face face.ref e.next_hops v.distinct;
          },
          refl,
          find-erase_self hop_face face.ref e.next_hops (v.distinct face.ref),
          find-erase_ne hop_face face.ref other.ref e.next_hops ne,
        )
      ]
