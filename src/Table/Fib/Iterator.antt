-- ===== src/Table/Fib/Iterator.antt =====
-- The iterator that `addOrUpdateNextHop` returns (daemon/table/fib-entry.cpp), which
-- daemon/table/fib.cpp dereferences to report the new next hop.
use nfd.Base.{
  ℕ, zero, suc, length, ◌≤◌, ◌+◌, ◌<◌, ◌≡◌, refl, ◌≢◌, ◌∙◌, Bool, true, not, ◌&&◌, List, [], ◌∷◌,
  some, none, find_if, count_if, leb, arith, get_elem?, count_if-append, All,
}
use mathlib.Core.Path.{subst, ap}
use nfd.Base.Keyed.{has_key, count_absent}
use nfd.Base.Permuted.{count-perm, count-get_elem?}
use nfd.Packet.{Face}
use nfd.Table.Fib.{
  NextHop, hop_face, Entry, IsSorted, IsSort, find_position, find_next_hop, upsert_next_hop,
  add_or_update_next_hop,
}
use nfd.Table.Fib.NextHops.{head_le, has_next_hop_absent}

abbrev cheap : ℕ → NextHop → Bool
cheap c h = leb h.cost c

abbrev dear_key : ℕ → ℕ → NextHop → Bool
dear_key k c h = has_key hop_face k h && not (cheap c h)

no_cheap : (c : ℕ) (hops : List NextHop) → All (λ h. c < h.cost) hops → count_if (cheap c) hops ≡ 0
no_cheap c [] a = refl
no_cheap c (h ∷ hops) a = ground (arith, no_cheap c hops)

no_dear_key :
    (k c : ℕ) (hops : List NextHop)
    → count_if (has_key hop_face k) hops ≡ 0
    → count_if (dear_key k c) hops ≡ 0
no_dear_key k c [] a = refl
no_dear_key k c (h ∷ hops) a = ground (arith, no_dear_key k c hops)

-- The only cheap next hop, which alone has the key, is not behind the head of a sorted list.
not_behind :
    (k c i : ℕ) (l : List NextHop) (h : NextHop)
    → IsSorted l
    → count_if (cheap c) l ≡ 1
    → count_if (dear_key k c) l ≡ 0
    → get_elem? l (suc i) ≡ some h
    → hop_face h ≢ k
not_behind k c i [] h s one none_dear got = λ e. absurd (ground arith)
not_behind k c i (a ∷ l) h s one none_dear got = λ e. absurd (
    ground (
      arith,
      head_le a h l i s got,
      count-get_elem? (dear_key k c) l i h got,
      count-get_elem? (cheap c) l i h got,
    ))

position_absent :
    (k : ℕ) (a : NextHop) (hops : List NextHop)
    → find_if (has_key hop_face k) (a ∷ hops) ≡ none
    → find_position (has_key hop_face k) (a ∷ hops) ≡ suc (find_position (has_key hop_face k) hops)
position_absent k a hops h = ground arith

get_elem?-below :
    (l : List NextHop) (i : ℕ) → i < length l → (h : NextHop) × (get_elem? l i ≡ some h)
get_elem?-below [] i lt = absurd (omega arith)
get_elem?-below (x ∷ xs) zero lt = (x, refl)
get_elem?-below (x ∷ xs) (suc i) lt = get_elem?-below xs i (omega arith)

count-length : (l : List NextHop) → count_if (λ h. true) l ≡ length l
count-length [] = refl
count-length (x ∷ xs) = ap suc (count-length xs)

find_position-le : (p : NextHop → Bool) (l : List NextHop) → find_position p l ≤ length l
find_position-le p [] = omega arith
find_position-le p (x ∷ xs) = ground (arith, find_position-le p xs)

module _ {Name : Type 0} (sort : List NextHop → List NextHop) (s : IsSort sort) where
  abbrev written : Entry Name → Face → ℕ → List NextHop
  written e face cost = sort (upsert_next_hop face cost e.next_hops)

  module _ (e : Entry Name) (face : Face) (cost : ℕ) (absent : find_next_hop e face ≡ none) where
    -- What a test counts after the call: one more, if it holds for the new next hop.
    count-written :
        (p : NextHop → Bool)
        → count_if p (written e face cost)
          ≡ count_if p e.next_hops + count_if p (record { face = face; cost = cost } ∷ [])
    unfolding upsert_next_hop find_next_hop
    count-written p =
        count-perm p (s.permutes _) ∙ rw (absent, upsert_next_hop) (count_if-append p e.next_hops _)

    length-written : length (written e face cost) ≡ suc (length e.next_hops)
    length-written = omega (
      arith,
      count-written (λ h. true),
      count-length (written e face cost),
      count-length e.next_hops,
    )

  -- The position that is remembered is not the one of the face, after the sort.
  misplaced :
      (e : Entry Name) (face : Face) (cost : ℕ) (first : NextHop) (rest : List NextHop)
      (h : NextHop)
      → e.next_hops ≡ first ∷ rest
      → find_next_hop e face ≡ none
      → All (λ h. cost < h.cost) e.next_hops
      → get_elem? (written e face cost) (find_position (has_key hop_face face.ref) e.next_hops)
        ≡ some h
      → hop_face h ≢ face.ref
  unfolding find_next_hop
  misplaced e face cost first rest h eq absent dear got =
      let key = has_key hop_face face.ref in
      not_behind face.ref cost (find_position key rest) (written e face cost) h (s.sorts _)
        (ground
          (arith, count-written e face cost absent (cheap cost), no_cheap cost e.next_hops dear))
        (ground (
          arith,
          count-written e face cost absent (dear_key face.ref cost),
          no_dear_key face.ref cost e.next_hops (count_absent hop_face face.ref e.next_hops absent),
        ))
        (subst (λ i. get_elem? (written e face cost) i ≡ some h)
          (ap (find_position key) eq
            ∙ position_absent face.ref first rest (subst (λ hs. find_if key hs ≡ none) eq absent))
          got)

  -- The defect: when a face that has no next hop in a nonempty entry is added with a cost below
  -- all others, the iterator that is returned for the new next hop refers to a next hop, but to
  -- that of another face.
  pub returned_iterator_wrong :
      (e : Entry Name) (face : Face) (cost : ℕ) (first : NextHop) (rest : List NextHop)
      → e.next_hops ≡ first ∷ rest
      → find_next_hop e face ≡ none
      → All (λ h. cost < h.cost) e.next_hops
      → let (e', position, is_new) = add_or_update_next_hop sort e face cost in
        (is_new ≡ true)
        × ((h : NextHop) × (get_elem? e'.next_hops position ≡ some h) × (hop_face h ≢ face.ref))
  unfolding add_or_update_next_hop
  returned_iterator_wrong e face cost first rest eq absent dear =
      let position = find_position (has_key hop_face face.ref) e.next_hops in
      let (h, got) = get_elem?-below (written e face cost) position (
        omega (
          arith,
          length-written e face cost absent,
          find_position-le (has_key hop_face face.ref) e.next_hops,
        )) in
      (
        rw (has_next_hop_absent e face absent) refl,
        (h, got, misplaced e face cost first rest h eq absent dear got),
      )
