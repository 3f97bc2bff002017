-- ===== src/Table/FibTable/Longest.antt =====
-- The look-up of the longest prefix (daemon/table/fib.cpp, daemon/table/name-tree.cpp).
use mathlib.Core.Path.{sym, subst}
use nfd.Base.{
  ℕ, zero, min, ◌≡◌, ◌≤◌, refl, inl, inr, Option, some, none, Option-cases, arith, [], Bool-cases,
  ◌==◌, ==_iff, ◌⊎◌, suc,
}
use nfd.Table.Fib.{Entry}
use nfd.Table.FibTable.{Fib, find_exact_match, longest_from, find_longest_prefix_match}
use nfd.Table.PitTable.{PitOps, max_depth}

module _ {Name : Type 0} (ops : PitOps Name) (fib : Fib Name) (name : Name) where
  -- The entry at a prefix of the name, when no longer prefix has one.
  pub record IsLongest (depth : ℕ) (e : Entry Name) : Type 0 where
    pub at : ℕ
    pub within : at ≤ depth
    pub found : find_exact_match ops fib (ops.prefix_of at name) ≡ some e
    pub longest :
        (n : ℕ) → suc at ≤ n → n ≤ depth → find_exact_match ops fib (ops.prefix_of n name) ≡ none

  abbrev pub IsAbsent : ℕ → Type 0
  IsAbsent depth = (n : ℕ) → n ≤ depth → find_exact_match ops fib (ops.prefix_of n name) ≡ none

  abbrev pub IsAnswer : ℕ → Option (Entry Name) → Type 0
  IsAnswer depth none = IsAbsent depth
  IsAnswer depth (some e) = IsLongest depth e

  at_most_suc :
      {P : ℕ → Type 0} (depth : ℕ)
      → ((n : ℕ) → n ≤ depth → P n)
      → P (suc depth)
      → (n : ℕ) → n ≤ suc depth
      → P n
  at_most_suc {P} depth below top n le = elim (Bool-cases (n == suc depth)) [
    | inl same ↦ subst P (sym ((==_iff n (suc depth)).0 same)) top
    | inr other ↦ below n (ground (arith, other, le))
  ]

  longer-IsAnswer :
      (depth : ℕ)
      → find_exact_match ops fib (ops.prefix_of (suc depth) name) ≡ none
      → (answer : Option (Entry Name)) → IsAnswer depth answer
      → IsAnswer (suc depth) answer
  longer-IsAnswer depth missing none absent = at_most_suc depth absent missing
  longer-IsAnswer depth missing (some e) found = record {
    at = found.at;
    within = omega (arith, found.within);
    found = found.found;
    longest = λ n above le.
        at_most_suc
          {P = λ m. suc found.at ≤ m → find_exact_match ops fib (ops.prefix_of m name) ≡ none} depth
          (λ m m_le m_above. found.longest m m_above m_le) (λ h. missing) n le above;
  }

  longest_from_lem : (depth : ℕ) → IsAnswer depth (longest_from ops fib name depth)
  unfolding longest_from
  longest_from_lem zero = elim (Option-cases (find_exact_match ops fib (ops.prefix_of 0 name))) [
    | inl missing ↦ rw missing (λ n le.
        subst (λ m. find_exact_match ops fib (ops.prefix_of m name) ≡ none) (omega (arith, le))
          missing)
    | inr (e, found) ↦ rw found (record {
      at = 0;
      within = omega arith;
      found = found;
      longest = λ n above le. absurd (omega (arith, above, le));
    })
  ]
  longest_from_lem (suc depth) =
      elim (Option-cases (find_exact_match ops fib (ops.prefix_of (suc depth) name))) [
        | inl missing ↦
            rw (missing, longest_from)
              (longer-IsAnswer depth missing (longest_from ops fib name depth)
                (longest_from_lem depth))
        | inr (e, found) ↦
            rw (found, longest_from)
              (record {
                at = suc depth;
                within = omega arith;
                found = found;
                longest = λ n above le. absurd (omega (arith, above, le));
              })
      ]

  -- The entry found for a name stands at a prefix of the name, within the depth limit, and no
  -- longer prefix within the limit has an entry; when no prefix has one, the entry has no next
  -- hops.
  pub find_longest_prefix_match_lem :
      let depth = min (ops.size_of name) max_depth in
      let e = find_longest_prefix_match ops fib name in
      IsLongest depth e ⊎ (IsAbsent depth × (e.next_hops ≡ []))
  unfolding find_longest_prefix_match
  find_longest_prefix_match_lem =
      let depth = min (ops.size_of name) max_depth in
      let answer = longest_from_lem depth in
      elim (Option-cases (longest_from ops fib name depth)) [
        | inl missing ↦
            rw (missing, find_longest_prefix_match)
              (inr (subst (IsAnswer depth) missing answer, refl))
        | inr (e, found) ↦
            rw (found, find_longest_prefix_match) (inl (subst (IsAnswer depth) found answer))
      ]
