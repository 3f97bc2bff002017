-- ===== src/Fw/RetxSuppression/Backoff.antt =====
-- The exponential back-off (daemon/fw/retx-suppression-exponential.cpp).
use nfd.Base.{
  ℕ, zero, suc, ◌-◌, ◌*◌, ◌≤◌, ◌<◌, min, ◌≡◌, refl, ◌⊎◌, inl, inr, true, List, [], ◌∷◌, All,
  IsOneOf, Option, some, none, ltb, arith, Bool-cases, ltb→lt, ltb-false→le, leb, leb→le,
  leb-false→lt, ap, ◌∙◌,
}
use native.Mathlib.Nat.{mul_comm, mul_assoc}
use nfd.Table.Pit.{Entry, OutRecord}
use nfd.Fw.Algorithm.Nonces.{get_last_outgoing_lem}
use nfd.Fw.Algorithm.{has_pending_out_records, get_last_outgoing}
use nfd.Fw.RetxSuppression.{
  forward, suppress, RetxSuppressionExponential, stored_interval, next_interval, us,
  decide_per_pit_entry, increment_interval_for_out_record,
}

-- What the constructor asserts, the multiplier being at least 1.
pub record IsConfigured (s : RetxSuppressionExponential) : Type 0 where
  pub positive : 0 < s.initial_interval
  pub ordered : s.initial_interval ≤ s.max_interval
  pub grows : (d : ℕ) → d ≤ s.scale d

-- A stored interval lies between the initial and the largest one.
abbrev pub IsInRange : RetxSuppressionExponential → Option ℕ → Type 0
IsInRange s none = Unit {0}
IsInRange s (some d) = (s.initial_interval ≤ d) × (d ≤ s.max_interval)

-- With a pending out-record there is a last transmission.
pending-last :
    {Name : Type 0} (e : Entry Name) (now : ℕ)
    → has_pending_out_records e now ≡ true
    → (r : OutRecord) × IsOneOf r e.out_records
      × (get_last_outgoing e ≡ some r.base.last_renewed)
      × All (λ o. o.base.last_renewed ≤ r.base.last_renewed) e.out_records
unfolding has_pending_out_records
pending-last e now pending = elim (out_records-cases e.out_records) [
  | inl empty ↦ absurd (ground (arith, empty))
  | inr (first, rest, eq) ↦ get_last_outgoing_lem e first rest eq
]
  where
    out_records-cases :
        (rs : List OutRecord)
        → (rs ≡ []) ⊎ ((first : OutRecord) × (rest : List OutRecord) × (rs ≡ first ∷ rest))
    out_records-cases [] = inl refl
    out_records-cases (r ∷ rs) = inr (r, rs, refl)

module _ (s : RetxSuppressionExponential) (c : IsConfigured s) where
  stored-IsInRange : (o : Option ℕ) → IsInRange s o → IsInRange s (some (stored_interval s o))
  stored-IsInRange none h = (omega arith, c.ordered)
  stored-IsInRange (some d) h = h

  next-IsInRange :
      (o : Option ℕ) → IsInRange s o → IsInRange s (some (next_interval s (stored_interval s o)))
  next-IsInRange o h = omega (arith, stored-IsInRange o h, c.grows (stored_interval s o), c.ordered)

  -- The decision for a PIT entry with pending out-records never fails: there is a latest renewal
  -- of its out-records, the last transmission. It suppresses exactly when
  -- the last transmission is more recent than the stored interval (the initial one at first); then
  -- the interval stays. Otherwise it forwards, and the interval grows to the scaled one, cut off at
  -- the largest. The interval stays in its range, and the records do not change.
  pub decide_per_pit_entry_lem :
      {Name : Type 0} (e : Entry Name) (now : ℕ)
      → has_pending_out_records e now ≡ true
      → IsInRange s e.suppression_interval
      → (e' : Entry Name) × (d : ℕ) × (r : OutRecord) × (IsInRange s (some d)
          × IsOneOf r e.out_records
          × All (λ o. o.base.last_renewed ≤ r.base.last_renewed) e.out_records
          × (e' ≡ record e { suppression_interval = some d })
          × ((now - r.base.last_renewed < us (stored_interval s e.suppression_interval))
                × (decide_per_pit_entry s e now ≡ some (e', suppress))
                × (d ≡ stored_interval s e.suppression_interval)
              ⊎ (us (stored_interval s e.suppression_interval) ≤ now - r.base.last_renewed)
                × (decide_per_pit_entry s e now ≡ some (e', forward))
                × (d ≡ min s.max_interval (s.scale (stored_interval s e.suppression_interval)))
                × (stored_interval s e.suppression_interval ≤ d)))
  unfolding decide_per_pit_entry
  decide_per_pit_entry_lem e now pending range =
      let (r, found, outgoing, latest) = pending-last e now pending in
      let last = r.base.last_renewed in
      let i : ℕ = stored_interval s e.suppression_interval in
      elim (Bool-cases (ltb (now - last) (us i))) [
        | inl recent ↦ (
          record e { suppression_interval = some i },
          i,
          r,
          (
            stored-IsInRange _ range,
            found,
            latest,
            refl,
            inl (ltb→lt _ _ recent, rw pending (rw outgoing (rw recent refl)), refl),
          ),
        )
        | inr old ↦ (
          record e { suppression_interval = some (next_interval s i) },
          next_interval s i,
          r,
          (
            next-IsInRange _ range,
            found,
            latest,
            refl,
            inr (
              ltb-false→le _ _ old,
              rw pending (rw outgoing (rw old refl)),
              refl,
              omega (arith, next-IsInRange _ range, stored-IsInRange _ range, c.grows i),
            ),
          ),
        )
      ]

-- The interval of an out-record after `n` increments.
unfoldable pub increments : RetxSuppressionExponential → ℕ → OutRecord → OutRecord
increments s zero r = r
increments s (suc n) r = increment_interval_for_out_record s (increments s n r)

unfoldable pub power : ℕ → ℕ → ℕ
power m zero = 1
power m (suc n) = m * power m n

module _ (s : RetxSuppressionExponential) (m : ℕ) (scales : (d : ℕ) → s.scale d ≡ d * m) where
  min_scaled : (a b : ℕ) → a ≤ a * m → min a (min a b * m) ≡ min a (b * m)
  min_scaled a b h = elim (Bool-cases (leb a b)) [
    | inl le ↦
        let ab : a ≤ b = leb→le a b le in
        let e : min a b ≡ a = omega arith in
        let scaled : a * m ≤ b * m = grind arith in rw e (omega (arith, scaled))
    | inr lt ↦ let e : min a b ≡ b = omega (arith, leb-false→lt a b lt) in rw e refl
  ]

  -- With a whole multiplier the `n`-th interval of an out-record is the initial one times the
  -- `n`-th power of the multiplier, cut off at the largest.
  increments_lem :
      (r : OutRecord) (n : ℕ)
      → 0 < m
      → s.initial_interval ≤ s.max_interval
      → r.suppression_interval ≡ none
      → stored_interval s (increments s n r).suppression_interval
        ≡ min s.max_interval (s.initial_interval * power m n)
  unfolding increments power increment_interval_for_out_record
  increments_lem r zero pos le fresh = rw fresh (omega arith)
  increments_lem r (suc n) pos le fresh =
      let p = power m n in
      let k = s.initial_interval in
      let grows : s.max_interval ≤ s.max_interval * m = grind arith in
      rw (increments_lem r n pos le fresh) (
        rw (scales (min s.max_interval (k * p))) (
          rw (min_scaled s.max_interval (k * p) grows)
            (ap (min s.max_interval) (mul_assoc k p m ∙ ap (◌*◌ k) (mul_comm p m)))))
