-- ===== src/Fw/ProcessNack/Outcomes.antt =====
-- What a Nack leads to (daemon/fw/process-nack-traits.cpp), by the Nacks received so far.
use mathlib.Core.Path.{sym, ap, ◌∙◌}
use nfd.Base.{
  ℕ, ◌+◌, ◌≡◌, ◌≤◌, refl, Bool, true, false, List, [], ◌∷◌, Option, some, none, ltb, ◌⊎◌, inl, inr,
  if◌then◌else◌, ◌<◌, some_inj, count_if, any_of-count, find_if-any_of, find_if-any_of-none,
  find_if, All, length, arith, Bool-cases, Option-cases, ltb→lt, ltb-false→le,
}
use nfd.Packet.{Face, NackReason}
use nfd.Table.Pit.{Entry, OutRecord, get_in_record}
use nfd.Fw.Algorithm.{is_nack_free}
use nfd.Fw.ProcessNack.{
  nacks_face, waits, nacks_all, Scan, initial_scan, scan_loop, scan_record, scan, process_nack,
  decide,
}

-- How many out-records hold no Nack.
abbrev pub n_waiting : List OutRecord → ℕ
n_waiting rs = count_if is_nack_free rs

-- The severity of a reason is a number, and the comparison is that of the numbers.
pub record IsRanking (is_less_severe : NackReason → NackReason → Bool) (rank : NackReason → ℕ)
    : Type 0 where
  pub agrees : (a b : NackReason) → is_less_severe a b ≡ ltb (rank a) (rank b)

module _ (is_less_severe : NackReason → NackReason → Bool) where
  count-record :
      (nack : Option NackReason) (face : Face) (s : Scan)
      → (scan_record is_less_severe nack face s).n_out_records_not_nacked
        ≡ s.n_out_records_not_nacked
          + (if (elim nack [ none ↦ true | some _ ↦ false ]) then 1 else 0)
  count-record none face s = omega arith
  count-record (some reason) face s = ground arith

  count-scan :
      (rs : List OutRecord) (s : Scan)
      → (scan_loop is_less_severe rs s).n_out_records_not_nacked
        ≡ s.n_out_records_not_nacked + n_waiting rs
  unfolding scan_loop
  count-scan [] s = omega arith
  count-scan (r ∷ rs) s = ground (
    arith,
    count-record r.incoming_nack r.base.face s,
    count-scan rs (scan_record is_less_severe r.incoming_nack r.base.face s),
  )

  last-record :
      (nack : Option NackReason) (face : Face) (s : Scan)
      → (scan_record is_less_severe nack face s).last_face_not_nacked
        ≡ (elim nack [ none ↦ some face | some _ ↦ s.last_face_not_nacked ])
  last-record none face s = refl
  last-record (some reason) face s = ground arith

  last-none :
      (rs : List OutRecord) (s : Scan)
      → n_waiting rs ≡ 0
      → (scan_loop is_less_severe rs s).last_face_not_nacked ≡ s.last_face_not_nacked
  unfolding scan_loop
  last-none [] s h = refl
  last-none (r ∷ rs) s h = ground (
    arith,
    last-record r.incoming_nack r.base.face s,
    last-none rs (scan_record is_less_severe r.incoming_nack r.base.face s),
  )

  -- If one out-record holds no Nack, its face is the one that the loop remembers.
  last-one :
      (rs : List OutRecord) (s : Scan) (r : OutRecord)
      → n_waiting rs ≡ 1
      → find_if is_nack_free rs ≡ some r
      → (scan_loop is_less_severe rs s).last_face_not_nacked ≡ some r.base.face
  unfolding scan_loop
  last-one [] s r h found = absurd (omega arith)
  last-one (x ∷ rs) s r h found = ground (
    arith,
    last-record x.incoming_nack x.base.face s,
    last-none rs (scan_record is_less_severe x.incoming_nack x.base.face s),
    last-one rs (scan_record is_less_severe x.incoming_nack x.base.face s) r,
  )

  module _ {Name : Type 0} (e : Entry Name) (s : Scan) where
    decide_all :
        (last : Option Face)
        → s.n_out_records_not_nacked ≡ 0
        → decide is_less_severe e s last ≡ nacks_all s.least_severe_reason
    decide_all none h = ground arith
    decide_all (some face) h = ground arith

    decide_many :
        (last : Option Face)
        → 2 ≤ s.n_out_records_not_nacked
        → decide is_less_severe e s last ≡ waits
    decide_many none h = ground arith
    decide_many (some face) h = ground arith

    decide_one :
        (face : Face)
        → s.n_out_records_not_nacked ≡ 1
        → decide is_less_severe e s (some face) ≡ (elim (get_in_record e face) [
          | none ↦ waits
          | some _ ↦ nacks_face face s.least_severe_reason
        ])
    decide_one face h = rw h refl

  module _ (rank : NackReason → ℕ) (ranking : IsRanking is_less_severe rank) where
    abbrev pub NotBelow : ℕ → OutRecord → Type 0
    NotBelow n r = (reason : NackReason) → r.incoming_nack ≡ some reason → n ≤ rank reason

    least-record :
        (nack : Option NackReason) (face : Face) (s : Scan)
        → (rank (scan_record is_less_severe nack face s).least_severe_reason
            ≤ rank s.least_severe_reason)
          × ((reason : NackReason)
              → nack ≡ some reason
              → rank (scan_record is_less_severe nack face s).least_severe_reason ≤ rank reason)
    least-record none face s = (omega arith, λ reason h. absurd (ground arith))
    least-record (some reason) face s =
        elim (Bool-cases (is_less_severe reason s.least_severe_reason)) [
          | inl less ↦
              rw less (omega (arith, below less), λ other h. ground (arith, ap rank (some_inj h)))
          | inr not_less ↦
              rw not_less
                (omega arith, λ other h. ground (arith, ap rank (some_inj h), above not_less))
        ]
      where
        below :
            is_less_severe reason s.least_severe_reason ≡ true
            → rank reason < rank s.least_severe_reason
        below less = ltb→lt _ _ (sym (ranking.agrees reason s.least_severe_reason) ∙ less)

        above :
            is_less_severe reason s.least_severe_reason ≡ false
            → rank s.least_severe_reason ≤ rank reason
        above not_less =
            ltb-false→le _ _ (sym (ranking.agrees reason s.least_severe_reason) ∙ not_less)

    least-scan :
        (rs : List OutRecord) (s : Scan)
        → (rank (scan_loop is_less_severe rs s).least_severe_reason ≤ rank s.least_severe_reason)
          × All (NotBelow (rank (scan_loop is_less_severe rs s).least_severe_reason)) rs
    unfolding scan_loop
    least-scan [] s = (omega arith, tt)
    least-scan (r ∷ rs) s =
        let first = least-record r.incoming_nack r.base.face s in
        let rest = least-scan rs (scan_record is_less_severe r.incoming_nack r.base.face s) in
        (
          omega (arith, first.0, rest.0),
          (λ reason h. omega (arith, first.1 reason h, rest.0), rest.1),
        )

    -- What is decided when some out-record holds a Nack. If all out-records do, the decision is to
    -- send a Nack to all downstreams. If there is more than one out-record, all but one hold a
    -- Nack, and the face of that one has an in-record, it is to send a Nack to that face. Otherwise
    -- it is to wait. The reason of the Nack to send is at most as severe as that of every Nack
    -- received.
    pub process_nack_lem :
        {Name : Type 0} (e : Entry Name)
        → n_waiting e.out_records < length e.out_records
        → (least : NackReason) × All (NotBelow (rank least)) e.out_records
          × (((n_waiting e.out_records ≡ 0) × (process_nack is_less_severe e ≡ nacks_all least))
              ⊎ ((2 ≤ n_waiting e.out_records) × (process_nack is_less_severe e ≡ waits))
              ⊎ ((r : OutRecord) × (2 ≤ length e.out_records)
                  × (n_waiting e.out_records ≡ 1)
                  × (find_if is_nack_free e.out_records ≡ some r)
                  × (process_nack is_less_severe e ≡ (elim (get_in_record e r.base.face) [
                    | none ↦ waits
                    | some _ ↦ nacks_face r.base.face least
                  ]))))
    unfolding process_nack
    process_nack_lem e nacked = (
      (scan is_less_severe e.out_records).least_severe_reason,
      (least-scan e.out_records initial_scan).1,
      elim (Option-cases (find_if is_nack_free e.out_records)) [
        | inl all ↦ inl (none_waits all, decide_all e final last (counted ∙ none_waits all))
        | inr (r, free) ↦ elim (Bool-cases (ltb 1 (n_waiting e.out_records))) [
          | inl many ↦ inr (
              inl (
                ltb→lt _ _ many,
                decide_many e final last (omega (arith, counted, ltb→lt _ _ many)),
              ))
          | inr one ↦ inr (
              inr (
                r,
                omega (arith, single free one, nacked),
                single free one,
                free,
                ap (decide is_less_severe e final)
                      (last-one e.out_records initial_scan r (single free one) free)
                    ∙ decide_one e final r.base.face (counted ∙ single free one),
              ))
        ]
      ],
    )
      where
        final : Scan
        final = scan is_less_severe e.out_records

        last : Option Face
        last = final.last_face_not_nacked

        counted : final.n_out_records_not_nacked ≡ n_waiting e.out_records
        counted = omega (arith, count-scan e.out_records initial_scan)

        none_waits : find_if is_nack_free e.out_records ≡ none → n_waiting e.out_records ≡ 0
        none_waits all = ground (
          arith,
          any_of-count is_nack_free e.out_records,
          find_if-any_of-none is_nack_free e.out_records all,
        )

        single :
            {r : OutRecord}
            → find_if is_nack_free e.out_records ≡ some r
            → ltb 1 (n_waiting e.out_records) ≡ false
            → n_waiting e.out_records ≡ 1
        single {r} free one = ground (
          arith,
          any_of-count is_nack_free e.out_records,
          find_if-any_of is_nack_free e.out_records r free,
          ltb-false→le 1 (n_waiting e.out_records) one,
        )
