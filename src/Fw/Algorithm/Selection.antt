-- ===== src/Fw/Algorithm/Selection.antt =====
-- Scope control and the choice of a next hop (daemon/fw/algorithm.cpp, wouldViolateScope,
-- isNextHopEligible, findEligibleNextHopWithEarliestOutRecord).
use nfd.Base.{
  ℕ, ◌≤◌, ◌≡◌, refl, ◌∙◌, Bool, true, false, List, [], ◌∷◌, Option, some, none, if◌then◌else◌,
  some_inj, arith, All, IsOneOf, ◌⊎◌, inl, inr, Bool-cases,
}
use mathlib.Core.Path.{subst}
use nfd.Packet.{Face, Interest, NameOps, local, ad_hoc}
use nfd.Table.Pit.{Entry, OutRecord, get_out_record}
use nfd.Table.Fib.{NextHop}
use nfd.Fw.Algorithm.{
  is_next_hop_eligible, is_earlier, earliest_loop, find_eligible_next_hop_with_earliest_out_record,
}

module _ {Name : Type 0} (ops : NameOps Name) (in_face : Face) (interest : Interest Name)
    (e : Entry Name) where
  abbrev pub is_eligible : NextHop → Bool
  is_eligible hop = is_next_hop_eligible ops in_face interest e hop false 0

  -- An eligible next hop is never the face that the Interest came from, unless that is ad hoc,
  -- and never carries a /localhost Interest, or a /localhop Interest from a face that is not local,
  -- to a face that is not local; and if an unused one is wanted, it has no out-record that has not
  -- expired.
  pub is_next_hop_eligible_sound :
      (hop : NextHop) (want_unused : Bool) (now : ℕ)
      → is_next_hop_eligible ops in_face interest e hop want_unused now ≡ true
      → ((hop.face.id ≡ in_face.id) → hop.face.link_type ≡ ad_hoc)
        × ((hop.face.scope ≡ local)
            ⊎ ((ops.is_prefix_of ops.localhost interest.name ≡ false)
                × ((ops.is_prefix_of ops.localhop interest.name ≡ false)
                    ⊎ (in_face.scope ≡ local))))
        × ((r : OutRecord)
            → want_unused ≡ true
            → get_out_record e hop.face ≡ some r
            → r.base.expiry ≤ now)
  unfolding is_next_hop_eligible
  is_next_hop_eligible_sound hop want_unused now h =
      (λ same. ground arith, ground arith, λ r wanted got. ground arith)

  -- Every eligible next hop has an out-record.
  abbrev pub HaveRecords : List NextHop → Type 0
  HaveRecords =
      All (λ hop. is_eligible hop ≡ true → (r : OutRecord) × (get_out_record e hop.face ≡ some r))

  abbrev NotBefore : ℕ → NextHop → Type 0
  NotBefore t hop =
      (r : OutRecord)
      → is_eligible hop ≡ true
      → get_out_record e hop.face ≡ some r
      → t ≤ r.base.last_renewed

  abbrev pub IsChosen : NextHop → ℕ → Type 0
  IsChosen hop t =
      (is_eligible hop ≡ true)
      × ((r : OutRecord) × (get_out_record e hop.face ≡ some r) × (t ≡ r.base.last_renewed))

  -- What the loop returns, from the best choice so far.
  abbrev Outcome : List NextHop → Option (NextHop × ℕ) → Option (NextHop × ℕ) → Type 0
  Outcome hops best none = (best ≡ none) × All (λ hop. is_eligible hop ≡ false) hops
  Outcome hops best (some (hop, t)) =
      All (NotBefore t) hops
      × ((best ≡ some (hop, t)) ⊎ (IsOneOf hop hops × IsChosen hop t))
      × ((b : NextHop × ℕ) → best ≡ some b → t ≤ b.1)

  refuse :
      (hop : NextHop) (hops : List NextHop) (best res : Option (NextHop × ℕ))
      → is_eligible hop ≡ false
      → Outcome hops best res
      → Outcome (hop ∷ hops) best res
  refuse hop hops best none refused (b, all) = (b, (refused, all))
  refuse hop hops best (some (h, t)) refused (all, from, least) = (
    (λ r el got. absurd (ground arith), all),
    elim from [ inl old ↦ inl old | inr (there, chosen) ↦ inr (inr there, chosen) ],
    least,
  )

  accept_earlier :
      (hop : NextHop) (hops : List NextHop) (best res : Option (NextHop × ℕ)) (r : OutRecord)
      → is_eligible hop ≡ true
      → get_out_record e hop.face ≡ some r
      → is_earlier ops in_face interest e r.base.last_renewed best ≡ true
      → Outcome hops (some (hop, r.base.last_renewed)) res
      → Outcome (hop ∷ hops) best res
  accept_earlier hop hops best none r el got earlier (b, all) = absurd (ground arith)
  accept_earlier hop hops best (some (h, t)) r el got earlier (all, from, least) =
      let le : t ≤ r.base.last_renewed = least (hop, r.base.last_renewed) refl in
      (
        (λ r' el' got'. ground arith, all),
        elim from [
          | inl old ↦ inr (
            inl (ground arith),
            subst (λ (c : NextHop × ℕ). IsChosen c.0 c.1) (some_inj old) (el, (r, got, refl)),
          )
          | inr (there, chosen) ↦ inr (inr there, chosen)
        ],
        λ b eq. ground arith,
      )

  accept_later :
      (hop : NextHop) (hops : List NextHop) (best res : Option (NextHop × ℕ)) (r : OutRecord)
      → get_out_record e hop.face ≡ some r
      → is_earlier ops in_face interest e r.base.last_renewed best ≡ false
      → Outcome hops best res
      → Outcome (hop ∷ hops) best res
  accept_later hop hops none res r got later o = absurd (ground arith)
  accept_later hop hops (some b) none r got later (eq, all) = absurd (ground arith)
  accept_later hop hops (some b) (some (h, t)) r got later (all, from, least) =
      let le : t ≤ b.1 = least b refl in
      (
        (λ r' el' got'. ground arith, all),
        elim from [ inl old ↦ inl old | inr (there, chosen) ↦ inr (inr there, chosen) ],
        least,
      )

  loop_refused :
      (hop : NextHop) (hops : List NextHop) (best : Option (NextHop × ℕ))
      → is_eligible hop ≡ false
      → earliest_loop ops in_face interest e (hop ∷ hops) best
        ≡ earliest_loop ops in_face interest e hops best
  unfolding earliest_loop
  loop_refused hop hops best refused = rw refused refl

  loop_eligible :
      (hop : NextHop) (hops : List NextHop) (best : Option (NextHop × ℕ)) (r : OutRecord)
      → is_eligible hop ≡ true
      → get_out_record e hop.face ≡ some r
      → earliest_loop ops in_face interest e (hop ∷ hops) best
        ≡ earliest_loop ops in_face interest e hops (
            if is_earlier ops in_face interest e r.base.last_renewed best
            then some (hop, r.base.last_renewed)
            else best)
  unfolding earliest_loop
  loop_eligible hop hops best r el got = rw el (rw got refl)

  earliest_loop_lem :
      (hops : List NextHop) (best : Option (NextHop × ℕ))
      → HaveRecords hops
      → (res : Option (NextHop × ℕ)) × (earliest_loop ops in_face interest e hops best ≡ some res)
        × Outcome hops best res
  unfolding earliest_loop
  earliest_loop_lem [] none h = (none, refl, (refl, tt))
  earliest_loop_lem [] (some (hop, t)) h =
      (some (hop, t), refl, (tt, inl refl, λ b eq. ground arith))
  earliest_loop_lem (hop ∷ hops) best h = elim (Bool-cases (is_eligible hop)) [
    | inr refused ↦
        let (res, eq, o) = earliest_loop_lem hops best h.1 in
        (res, loop_refused hop hops best refused ∙ eq, refuse hop hops best res refused o)
    | inl el ↦
        let (r, got) = h.0 el in
        elim (Bool-cases (is_earlier ops in_face interest e r.base.last_renewed best)) [
          | inl earlier ↦
              let (res, eq, o) = earliest_loop_lem hops (some (hop, r.base.last_renewed)) h.1 in
              (
                res,
                loop_eligible hop hops best r el got ∙ rw earlier eq,
                accept_earlier hop hops best res r el got earlier o,
              )
          | inr later ↦
              let (res, eq, o) = earliest_loop_lem hops best h.1 in
              (
                res,
                loop_eligible hop hops best r el got ∙ rw later eq,
                accept_later hop hops best res r got later o,
              )
        ]
  ]

  -- What the choice among the next hops is: none, and then no next hop is eligible; or an eligible
  -- one, and then no eligible next hop was used earlier.
  abbrev pub IsEarliest : List NextHop → Option (NextHop × ℕ) → Type 0
  IsEarliest hops none = All (λ hop. is_eligible hop ≡ false) hops
  IsEarliest hops (some (hop, t)) = IsOneOf hop hops × IsChosen hop t × All (NotBefore t) hops

  -- If every eligible next hop has an out-record, the search dereferences no end iterator. It
  -- finds nothing only if no next hop is eligible; otherwise it finds an eligible next hop, and no
  -- eligible next hop has an out-record that was renewed earlier.
  pub find_eligible_next_hop_with_earliest_out_record_lem :
      (hops : List NextHop)
      → HaveRecords hops
      → (res : Option (NextHop × ℕ)) × (find_eligible_next_hop_with_earliest_out_record ops in_face
            interest e hops
          ≡ some res)
        × IsEarliest hops res
  unfolding find_eligible_next_hop_with_earliest_out_record
  find_eligible_next_hop_with_earliest_out_record_lem hops h =
      let (res, eq, o) = earliest_loop_lem hops none h in (res, eq, finish res o)
    where
      finish : (res : Option (NextHop × ℕ)) → Outcome hops none res → IsEarliest hops res
      finish none (b, all) = all
      finish (some (hop, t)) (all, from, least) = elim from [
        | inl old ↦ absurd (ground arith)
        | inr (there, chosen) ↦ (there, chosen, all)
      ]
