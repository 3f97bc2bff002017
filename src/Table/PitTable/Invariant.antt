-- ===== src/Table/PitTable/Invariant.antt =====
-- The invariant of the Pending Interest Table (daemon/table/pit.cpp).
use nfd.Base.{
  ℕ, ◌≡◌, ◌≤◌, refl, List, [], ◌∷◌, ◌++◌, erase_if, update_if, count_if, count_if-append, All,
  arith, Bool-cases, Option-cases, inl, inr,
}
use nfd.Base.Keyed.{has_key, IsDistinct, count-update, erase-IsDistinct, count-erase-le}
use nfd.Packet.{Interest, NameOps}
use nfd.Table.Pit.{Entry, new_entry}
use nfd.Table.Pit.Records
use nfd.Table.PitTable
use nfd.Table.PitTable.{Pit, PitOps, Stored, id_of, modify, erase, insert, attached, find_stored}

-- Identities are distinct and below the next one, and the records of every entry are distinct.
pub record IsValid {Name : Type 0} (pit : Pit Name) : Type 0 where
  pub distinct : IsDistinct id_of pit.stored
  pub below : (i : ℕ) → pit.next_id ≤ i → count_if (has_key id_of i) pit.stored ≡ 0
  pub records : All (λ s. Records.IsValid s.entry) pit.stored

module _ {Name : Type 0} where
  All-update :
      (f : Entry Name → Entry Name) (i : ℕ) (stored : List (Stored Name))
      → ((e : Entry Name) → Records.IsValid e → Records.IsValid (f e))
      → All (λ s. Records.IsValid s.entry) stored
      → All
          (λ s. Records.IsValid s.entry)
          (update_if (has_key id_of i) (λ s. record s { entry = f s.entry }) stored)
  All-update f i [] keeps all = tt
  All-update f i (s ∷ rest) keeps (v, all) = elim (Bool-cases (has_key id_of i s)) [
    | inl hit ↦ rw hit (keeps s.entry v, all)
    | inr miss ↦ rw miss (v, All-update f i rest keeps all)
  ]

  All-erase :
      (i : ℕ) (stored : List (Stored Name))
      → All (λ s. Records.IsValid s.entry) stored
      → All (λ s. Records.IsValid s.entry) (erase_if (has_key id_of i) stored)
  All-erase i [] all = tt
  All-erase i (s ∷ rest) (v, all) = elim (Bool-cases (has_key id_of i s)) [
    | inl hit ↦ rw hit all
    | inr miss ↦ rw miss (v, All-erase i rest all)
  ]

  All-append_one :
      (stored : List (Stored Name)) (s : Stored Name)
      → All (λ t. Records.IsValid t.entry) stored
      → Records.IsValid s.entry
      → All (λ t. Records.IsValid t.entry) (stored ++ s ∷ [])
  All-append_one [] s all v = (v, tt)
  All-append_one (t ∷ rest) s (w, all) v = (w, All-append_one rest s all v)

  pub modify-IsValid :
      (f : Entry Name → Entry Name) (i : ℕ) (pit : Pit Name)
      → ((e : Entry Name) → Records.IsValid e → Records.IsValid (f e))
      → IsValid pit
      → IsValid (modify f i pit)
  modify-IsValid f i pit keeps v = record {
    distinct = λ j. omega (
      arith,
      count-update id_of (λ s. record s { entry = f s.entry }) (λ s. refl) i j pit.stored,
      v.distinct j,
    );
    below = λ j h. omega (
      arith,
      count-update id_of (λ s. record s { entry = f s.entry }) (λ s. refl) i j pit.stored,
      v.below j h,
    );
    records = All-update f i pit.stored keeps v.records;
  }

  pub erase-IsValid : (i : ℕ) (pit : Pit Name) → IsValid pit → IsValid (erase pit i)
  unfolding erase
  erase-IsValid i pit v = record {
    distinct = erase-IsDistinct id_of i pit.stored v.distinct;
    below = λ j h. omega (arith, count-erase-le id_of i j pit.stored, v.below j h);
    records = All-erase i pit.stored v.records;
  }

  module _ (names : NameOps Name) (ops : PitOps Name) where
    attached-IsValid :
        (pit : Pit Name) (interest : Interest Name)
        → IsValid pit
        → IsValid (attached names ops pit interest)
    attached-IsValid pit interest v = record {
      distinct = λ j. ground (
        arith,
        count_if-append (has_key id_of j) pit.stored (added ∷ []),
        v.distinct j,
        v.below j,
      );
      below = λ j h.
          ground (arith, count_if-append (has_key id_of j) pit.stored (added ∷ []), v.below j);
      records =
          All-append_one pit.stored added v.records
            (record { ins = λ k. omega arith; outs = λ k. omega arith });
    }
      where
        added : Stored Name
        added = record {
          id = pit.next_id;
          nte = ops.prefix_of (PitTable.nte_depth names ops interest.name) interest.name;
          entry = new_entry interest;
        }

    pub insert-IsValid :
        (pit : Pit Name) (interest : Interest Name)
        → IsValid pit
        → IsValid (insert names ops pit interest).0
    unfolding insert
    insert-IsValid pit interest v = elim (Option-cases (find_stored names ops pit interest)) [
      | inl new ↦ rw (new, insert) (attached-IsValid pit interest v)
      | inr (s, old) ↦ rw (old, insert) v
    ]
