-- ===== src/Table/Cleanup.antt =====
-- daemon/table/cleanup.{hpp,cpp}: what is taken from the tables when a face is removed.
--
-- The enumeration visits every entry once. Of the name tree nothing is left to clean.
use mathlib.Core.Path.{sym, ◌∙◌}
use nfd.Base.{
  ℕ, suc, ◌≡◌, refl, Bool, true, false, List, [], ◌∷◌, none, All, All-map, count_if, arith,
}
use nfd.Packet.{Face}
use nfd.Table.Pit.{
  get_in_record, get_out_record, delete_in_record, delete_out_record, in_face, out_face,
}
use nfd.Base.Keyed.{find-erase_self, erase-IsDistinct, has_key}
use nfd.Table.Pit.Records
use nfd.Table.PitTable.{Pit, Stored, id_of}
use nfd.Table.PitTable.Invariant
use nfd.Table.Fib.{Entry, has_next_hop, has_next_hops, remove_next_hop}
use nfd.Table.Fib.NextHops
use nfd.Table.Fib.NextHops.{remove_next_hop_lem, has_next_hop_absent}
use nfd.Table.FibTable.{Fib, remove_at, put_back, count_removed}

module _ {Name : Type 0} where
  abbrev pub clean_entries : Face → List (Entry Name) → List (Entry Name)
  clean_entries face [] = []
  clean_entries face (e ∷ rest) = (remove_at face e (clean_entries face rest)).0

  -- The count of the entries, decremented for each one that is removed.
  abbrev pub clean_count : Face → List (Entry Name) → ℕ → ℕ
  clean_count face [] n = n
  clean_count face (e ∷ rest) n = clean_count face rest (count_removed (remove_at face e rest).1 n)

  abbrev pub clean_stored : Face → List (Stored Name) → List (Stored Name)
  clean_stored face [] = []
  clean_stored face (s ∷ rest) =
      record s { entry = delete_out_record (delete_in_record s.entry face) face }
      ∷ clean_stored face rest

  unfoldable pub cleanup_on_face_removal : Fib Name → Pit Name → Face → Fib Name × Pit Name
  unfolding delete_in_record delete_out_record remove_next_hop has_next_hop has_next_hops
  cleanup_on_face_removal fib pit face = (
    record {
      entries = clean_entries face fib.entries;
      n_items = clean_count face fib.entries fib.n_items;
    },
    record pit { stored = clean_stored face pit.stored },
  )

  -- A stored entry after the removal has no record of the face, and its records are still distinct.
  cleaned_entry :
      (face : Face) (stored : List (Stored Name))
      → All (λ s. Records.IsValid s.entry) stored
      → All
          (λ s.
            Records.IsValid s.entry
            × (get_in_record s.entry face ≡ none)
            × (get_out_record s.entry face ≡ none))
          (clean_stored face stored)
  unfolding get_in_record get_out_record delete_in_record delete_out_record
  cleaned_entry face [] all = tt
  cleaned_entry face (s ∷ rest) (v, all) = (
    (
      record {
        ins = erase-IsDistinct in_face face.ref s.entry.in_records v.ins;
        outs = erase-IsDistinct out_face face.ref s.entry.out_records v.outs;
      },
      find-erase_self in_face face.ref s.entry.in_records (v.ins face.ref),
      find-erase_self out_face face.ref s.entry.out_records (v.outs face.ref),
    ),
    cleaned_entry face rest all,
  )

  count-clean_stored :
      (face : Face) (i : ℕ) (stored : List (Stored Name))
      → count_if (has_key id_of i) (clean_stored face stored) ≡ count_if (has_key id_of i) stored
  count-clean_stored face i [] = refl
  count-clean_stored face i (s ∷ rest) = ground (arith, count-clean_stored face i rest)

  put_back-All :
      (P : Entry Name → Type 0) (e e' : Entry Name) (rest : List (Entry Name))
      (is_removed is_left : Bool)
      → (is_removed ≡ false → P e)
      → (is_left ≡ true → P e')
      → All P rest
      → All P (put_back e e' rest is_removed is_left).0
  put_back-All P e e' rest false is_left kept changed all = (kept refl, all)
  put_back-All P e e' rest true false kept changed all = all
  put_back-All P e e' rest true true kept changed all = (changed refl, all)

  pub clean_pit-IsValid :
      (face : Face) (pit : Pit Name)
      → Invariant.IsValid pit
      → Invariant.IsValid (record pit { stored = clean_stored face pit.stored })
  clean_pit-IsValid face pit v = record {
    distinct = λ i. omega (arith, count-clean_stored face i pit.stored, v.distinct i);
    below = λ i above. omega (arith, count-clean_stored face i pit.stored, v.below i above);
    records =
        All-map _ _ (λ s clean. clean.0) (clean_stored face pit.stored)
          (cleaned_entry face pit.stored v.records);
  }

  -- A FIB entry that is left has a next hop, and none to the face.
  clean_entries_lem :
      (face : Face) (entries : List (Entry Name))
      → All NextHops.IsValid entries
      → All (λ e. has_next_hops e ≡ true) entries
      → All
          (λ e. NextHops.IsValid e × (has_next_hops e ≡ true) × (has_next_hop e face ≡ false))
          (clean_entries face entries)
  clean_entries_lem face [] all nonempty = tt
  clean_entries_lem face (e ∷ rest) (v, all) (n, nonempty) =
      let other : Face = record face { ref = suc face.ref } in
      let removed = remove_next_hop_lem e face other v (λ h. absurd (omega (arith, h))) in
      let e' = remove_next_hop e face in
      put_back-All _ e e'.0 (clean_entries face rest) e'.1 (has_next_hops e'.0)
        (λ kept. (v, n, sym removed.1 ∙ kept))
        (λ is_left. (removed.0, is_left, has_next_hop_absent e'.0 face removed.2))
        (clean_entries_lem face rest all nonempty)

  -- After a face is removed, no PIT entry has an in-record or an out-record of the face, and every
  -- FIB entry that is left has next hops, and none to the face, if every FIB entry had next hops.
  -- Both tables stay valid.
  pub cleanup_on_face_removal_lem :
      (fib : Fib Name) (pit : Pit Name) (face : Face)
      → All NextHops.IsValid fib.entries
      → All (λ e. has_next_hops e ≡ true) fib.entries
      → Invariant.IsValid pit
      → let (fib', pit') = cleanup_on_face_removal fib pit face in
        Invariant.IsValid pit'
        × All
            (λ s. (get_in_record s.entry face ≡ none) × (get_out_record s.entry face ≡ none))
            pit'.stored
        × All
            (λ e. NextHops.IsValid e × (has_next_hops e ≡ true) × (has_next_hop e face ≡ false))
            fib'.entries
  unfolding cleanup_on_face_removal
  cleanup_on_face_removal_lem fib pit face fib_valid nonempty v = (
    clean_pit-IsValid face pit v,
    All-map _ _ (λ s clean. (clean.1, clean.2)) (clean_stored face pit.stored)
        (cleaned_entry face pit.stored v.records),
    clean_entries_lem face fib.entries fib_valid nonempty,
  )
