-- ===== src/Tests/PitFib.antt =====
-- A PIT entry and a FIB entry at concrete faces and packets.
use mathlib.Core.List.{Perm}
use mathlib.Core.List.Perm
use nfd.Base.{
  ℕ, ◌+◌, ◌≡◌, ◌≢◌, ◌≤◌, refl, true, not, List, [], ◌∷◌, some, none, arith, min, get_elem?, leb,
  if◌then◌else◌, Bool-cases, inl, inr, leb→le, leb-false→lt,
}
use nfd.Packet.{Face, ms, duplicate}
use nfd.Table.Pit.Nacks.{insert_out_record-incoming_nack}
use nfd.Table.Fib.{
  NextHop, hop_face, find_next_hop, has_next_hop, add_or_update_next_hop, remove_next_hop, IsSort,
  IsSorted,
}
use nfd.Table.Fib.NextHops.{add_or_update_next_hop_lem, remove_next_hop_lem}
use nfd.Table.Fib.Iterator.{returned_iterator_wrong}
use nfd.Table.Pit.{
  InRecord, OutRecord, new_entry, get_in_record, get_out_record, insert_or_update_in_record,
  insert_or_update_out_record, delete_in_record, delete_out_record, max_lifetime,
}
use nfd.Table.Pit.Records.{get-insert_in_record, call-IsValid, call, inserts_out}
use nfd.Tests.Data.{app, east, west, video}
use nfd.Table.Pit
use nfd.Table.Pit.Records
use nfd.Table.Fib
use nfd.Table.Fib.NextHops

abbrev asked : Pit.Entry ℕ
asked = insert_or_update_in_record (new_entry (video 11)) app (video 11) 1000

get-insert_in_record_example :
    ((r : InRecord ℕ) × (get_in_record (insert_or_update_in_record asked east (video 12) 2000) east
        ≡ some r)
      × (r.interest ≡ some (video 12))
      × (r.base.last_nonce ≡ 12)
      × (r.base.last_renewed ≡ 2000)
      × (r.base.expiry ≡ 2000 + ms (min 4000 max_lifetime)))
    × ((other : Face)
        → other.ref ≢ 2
        → get_in_record (insert_or_update_in_record asked east (video 12) 2000) other
          ≡ get_in_record asked other)
get-insert_in_record_example = get-insert_in_record asked east (video 12) 2000

new-IsValid : Pit.Records.IsValid (new_entry (video 11))
new-IsValid = record { ins = λ k. omega arith; outs = λ k. omega arith }

call-IsValid_example :
    Pit.Records.IsValid (call (new_entry (video 11)) (inserts_out east (video 11) 2000))
call-IsValid_example =
    call-IsValid (new_entry (video 11)) (inserts_out east (video 11) 2000) new-IsValid

-- Insertion sort by cost.
abbrev place : NextHop → List NextHop → List NextHop
place h [] = h ∷ []
place h (x ∷ xs) = if leb h.cost x.cost then h ∷ x ∷ xs else x ∷ place h xs

abbrev sort : List NextHop → List NextHop
sort [] = []
sort (h ∷ hs) = place h (sort hs)

place-Perm : (h : NextHop) (xs : List NextHop) → Perm (place h xs) (h ∷ xs)
place-Perm h [] = Perm.refl (h ∷ [])
place-Perm h (x ∷ xs) = elim (Bool-cases (leb h.cost x.cost)) [
  | inl first ↦ rw first (Perm.refl (h ∷ x ∷ xs))
  | inr later ↦ rw later (Perm.trans (Perm.cons x (place-Perm h xs)) (Perm.swap h x xs))
]

place-after :
    (x h : NextHop) (ys : List NextHop)
    → x.cost ≤ h.cost
    → IsSorted (x ∷ ys)
    → IsSorted (x ∷ place h ys)
place-after x h [] le s = (le, tt)
place-after x h (y ∷ ys) le (xy, s) = elim (Bool-cases (leb h.cost y.cost)) [
  | inl first ↦ rw first (le, (leb→le h.cost y.cost first, s))
  | inr later ↦
      rw later (xy, place-after y h ys (omega (arith, leb-false→lt h.cost y.cost later)) s)
]

place-IsSorted : (h : NextHop) (xs : List NextHop) → IsSorted xs → IsSorted (place h xs)
place-IsSorted h [] s = tt
place-IsSorted h (x ∷ xs) s = elim (Bool-cases (leb h.cost x.cost)) [
  | inl first ↦ rw first (leb→le h.cost x.cost first, s)
  | inr later ↦ rw later (place-after x h xs (omega (arith, leb-false→lt h.cost x.cost later)) s)
]

sort-Perm : (hs : List NextHop) → Perm (sort hs) hs
sort-Perm [] = Perm.refl []
sort-Perm (h ∷ hs) = Perm.trans (place-Perm h (sort hs)) (Perm.cons h (sort-Perm hs))

sort-IsSorted : (hs : List NextHop) → IsSorted (sort hs)
sort-IsSorted [] = tt
sort-IsSorted (h ∷ hs) = place-IsSorted h (sort hs) (sort-IsSorted hs)

sort-IsSort : IsSort sort
sort-IsSort = record { permutes = sort-Perm; sorts = sort-IsSorted }

abbrev routed : Fib.Entry ℕ
routed = record { prefix = 7; next_hops = record { face = east; cost = 10 } ∷ [] }

routed-IsValid : Fib.NextHops.IsValid routed
routed-IsValid = record { sorted = tt; distinct = λ k. ground arith }

add_or_update_next_hop_example :
    Fib.NextHops.IsValid (add_or_update_next_hop sort routed west 5).0
    × ((h : NextHop) × (find_next_hop (add_or_update_next_hop sort routed west 5).0 west ≡ some h)
        × (h.cost ≡ 5))
    × ((other : Face)
        → other.ref ≢ 3
        → find_next_hop (add_or_update_next_hop sort routed west 5).0 other
          ≡ find_next_hop routed other)
    × ((add_or_update_next_hop sort routed west 5).2 ≡ not (has_next_hop routed west))
add_or_update_next_hop_example =
    add_or_update_next_hop_lem sort sort-IsSort routed west 5 (λ k. ground arith)

remove_next_hop_example :
    Fib.NextHops.IsValid (remove_next_hop routed east).0
    × ((remove_next_hop routed east).1 ≡ has_next_hop routed east)
    × (find_next_hop (remove_next_hop routed east).0 east ≡ none)
    × (find_next_hop (remove_next_hop routed east).0 west ≡ find_next_hop routed west)
remove_next_hop_example = remove_next_hop_lem routed east west routed-IsValid (omega arith)

west-absent : find_next_hop routed west ≡ none
unfolding find_next_hop
west-absent = refl

returned_iterator_wrong_example :
    ((add_or_update_next_hop sort routed west 5).2 ≡ true)
    × ((h : NextHop) × (get_elem?
            (add_or_update_next_hop sort routed west 5).0.next_hops
            (add_or_update_next_hop sort routed west 5).1
          ≡ some h)
        × (hop_face h ≢ 3))
returned_iterator_wrong_example =
    returned_iterator_wrong sort sort-IsSort routed west 5 (record { face = east; cost = 10 }) []
      refl west-absent (omega arith, tt)

abbrev nacked : OutRecord
nacked = record {
  base = record { face = east; last_nonce = 11; last_renewed = 2000; expiry = 4000002000 };
  incoming_nack = some duplicate;
  suppression_interval = none;
}

abbrev refused : Pit.Entry ℕ
refused = record (new_entry (video 11)) { out_records = nacked ∷ [] }

refused-record : get_out_record refused east ≡ some nacked
unfolding get_out_record
refused-record = refl

insert_out_record-incoming_nack_example :
    (r' : OutRecord) × (get_out_record
        (insert_or_update_out_record refused east (video 12) 3000)
        east
      ≡ some r')
    × (r'.incoming_nack ≡ some duplicate)
    × (r'.base.last_nonce ≡ 12)
    × (r'.base.last_renewed ≡ 3000)
    × (r'.base.expiry ≡ 3000 + ms (min (video 12).interest_lifetime max_lifetime))
insert_out_record-incoming_nack_example =
    insert_out_record-incoming_nack refused east (video 12) 3000 nacked duplicate refused-record
      refl
