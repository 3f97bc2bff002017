-- ===== src/Table/PitTable.antt =====
-- daemon/table/pit.{hpp,cpp}: the Pending Interest Table.
--
-- An entry is known by its identity, a number that no other entry ever has, for the shared pointer
-- of the source; `modify` is a write through that pointer. Of the name tree only this is kept:
-- which entries are attached to the entry of which name. The order of the entries of one name,
-- which an erasure changes in the source, is that of their insertion. `PitOps` is what the table
-- asks of ndn-cxx: the size of a name, whether its last component is an implicit digest, its prefix
-- of a size, and Interest::matchesData.
pub mod Invariant
use nfd.Base.{
  ℕ, zero, suc, ◌+◌, ◌-◌, min, Bool, true, false, ◌&&◌, List, [], ◌∷◌, ◌++◌, Option, some, none,
  find_if, erase_if, update_if, length, if◌then◌else◌,
}
use nfd.Base.Keyed.{has_key}
use nfd.Packet.{Face, Interest, Data, NameOps}
use nfd.Table.Pit.{Entry, new_entry, can_match, delete_in_record, delete_out_record}

-- NameTree::getMaxDepth
abbrev pub max_depth : ℕ
max_depth = 32

pub record PitOps (Name : Type 0) : Type 0 where
  pub size_of : Name → ℕ
  pub has_digest : Name → Bool
  pub prefix_of : ℕ → Name → Name
  pub same_name : Name → Name → Bool
  pub matches_data : Interest Name → Data Name → Bool

-- A PIT entry, its identity and the name of the name tree entry that it is attached to.
pub record Stored (Name : Type 0) : Type 0 where
  pub id : ℕ
  pub nte : Name
  pub entry : Entry Name

abbrev pub id_of : {Name : Type 0} → Stored Name → ℕ
id_of s = s.id

pub record Pit (Name : Type 0) : Type 0 where
  pub next_id : ℕ
  pub stored : List (Stored Name)

module _ {Name : Type 0} where
  abbrev pub get : Pit Name → ℕ → Option (Stored Name)
  get pit i = find_if (has_key id_of i) pit.stored

  abbrev pub modify : (Entry Name → Entry Name) → ℕ → Pit Name → Pit Name
  modify f i pit = record pit {
    stored = update_if (has_key id_of i) (λ s. record s { entry = f s.entry }) pit.stored;
  }

  abbrev pub size : Pit Name → ℕ
  size pit = length pit.stored

  -- The identities of the entries that pass.
  abbrev pub ids_where : (Stored Name → Bool) → List (Stored Name) → List ℕ
  ids_where p [] = []
  ids_where p (s ∷ rest) = if p s then s.id ∷ ids_where p rest else ids_where p rest

  unfoldable pub erase : Pit Name → ℕ → Pit Name
  erase pit i = record pit { stored = erase_if (has_key id_of i) pit.stored }

  unfoldable pub delete_in_out_records : Pit Name → ℕ → Face → Pit Name
  unfolding delete_in_record delete_out_record
  delete_in_out_records pit i face =
      modify (λ e. delete_out_record (delete_in_record e face) face) i pit

  module _ (names : NameOps Name) (ops : PitOps Name) where
    abbrev pub nte_depth : Name → ℕ
    nte_depth name = min (ops.size_of name - (if ops.has_digest name then 1 else 0)) max_depth

    -- The entry that `findOrInsert` finds.
    unfoldable pub find_stored : Pit Name → Interest Name → Option (Stored Name)
    unfolding can_match
    find_stored pit interest =
        find_if
          (λ s.
            ops.same_name s.nte (ops.prefix_of (nte_depth interest.name) interest.name)
            && can_match names s.entry interest (nte_depth interest.name))
          pit.stored

    -- `findOrInsert` without insertion.
    unfoldable pub find : Pit Name → Interest Name → Option ℕ
    unfolding find_stored
    find pit interest = elim (find_stored pit interest) [ none ↦ none | some s ↦ some s.id ]

    abbrev pub attached : Pit Name → Interest Name → Pit Name
    attached pit interest = record {
      next_id = suc pit.next_id;
      stored =
          pit.stored
          ++ record {
            id = pit.next_id;
            nte = ops.prefix_of (nte_depth interest.name) interest.name;
            entry = new_entry interest;
          }
            ∷ [];
    }

    -- `findOrInsert` with insertion: the table, the entry, and whether it is new.
    unfoldable pub insert : Pit Name → Interest Name → Pit Name × ℕ × Bool
    unfolding find_stored
    insert pit interest = elim (find_stored pit interest) [
      | some s ↦ (pit, s.id, false)
      | none ↦ (attached pit interest, pit.next_id, true)
    ]

    -- The entries attached to the prefix of a size that the Data matches.
    abbrev pub matches_at : Pit Name → Data Name → ℕ → List ℕ
    matches_at pit packet depth =
        ids_where
          (λ s.
            ops.same_name s.nte (ops.prefix_of depth packet.name)
            && ops.matches_data s.entry.interest packet)
          pit.stored

    -- From the longest prefix up to the root.
    abbrev pub matches_from : Pit Name → Data Name → ℕ → List ℕ
    matches_from pit packet zero = matches_at pit packet 0
    matches_from pit packet (suc depth) =
        matches_at pit packet (suc depth) ++ matches_from pit packet depth

    unfoldable pub find_all_data_matches : Pit Name → Data Name → List ℕ
    find_all_data_matches pit packet =
        matches_from pit packet (min (ops.size_of packet.name) max_depth)
