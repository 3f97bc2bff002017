-- ===== src/FaceSystem/Lp/Congestion/Marking.antt =====
-- Which packets are marked (daemon/face/generic-link-service.cpp, checkCongestionLevel).
use nfd.Base.{
  ℕ, ◌+◌, ◌≡◌, ◌≤◌, ◌<◌, refl, Bool, false, List, [], ◌∷◌, Option, some, none, ltb, leb, inl, inr,
  if◌then◌else◌, arith, Bool-cases, All, count_if, leb→le,
}
use nfd.FaceSystem.Lp.Congestion.{
  CongestionOptions, CongestionState, check_above, check_below, check_congestion_level,
}

-- The next mark, if one is due, is not before a time.
abbrev pub IsNotBefore : ℕ → Option ℕ → Type 0
IsNotBefore t none = Unit {0}
IsNotBefore t (some next) = t ≤ next

module _ (options : CongestionOptions) where
  -- The packets sent one after the other, each with the queue length and its time: the state at
  -- the end, and which were marked.
  unfoldable pub send_all : CongestionState → List (Option ℕ × ℕ) → CongestionState × List Bool
  unfolding check_congestion_level
  send_all s [] = (s, [])
  send_all s ((queue_length, now) ∷ packets) =
      let first = check_congestion_level options s queue_length now in
      let rest = send_all first.0 packets in (rest.0, first.1 ∷ rest.1)

  above-IsNotBefore :
      (t : ℕ) (next : Option ℕ) (s : CongestionState) (now : ℕ)
      → t ≤ now
      → now < t + options.base_congestion_marking_interval
      → IsNotBefore (t + options.base_congestion_marking_interval) s.next_mark_time
      → IsNotBefore (t + options.base_congestion_marking_interval) next
      → IsNotBefore
          (t + options.base_congestion_marking_interval)
          (check_above options next s now).0.next_mark_time
        × ((check_above options next s now).1 ≡ false)
  above-IsNotBefore t none s now from to h n = (omega arith, refl)
  above-IsNotBefore t (some next) s now from to h n = elim (Bool-cases (leb next now)) [
    | inl due ↦ absurd (omega (arith, leb→le next now due))
    | inr early ↦ rw early (h, refl)
  ]

  below-IsNotBefore :
      (t : ℕ) (next : Option ℕ) (s : CongestionState)
      → IsNotBefore t s.next_mark_time
      → IsNotBefore t (check_below options next s).0.next_mark_time
        × ((check_below options next s).1 ≡ false)
  below-IsNotBefore t none s h = (h, refl)
  below-IsNotBefore t (some next) s h = (tt, refl)

  check-IsNotBefore :
      (t : ℕ) (s : CongestionState) (queue_length : Option ℕ) (now : ℕ)
      → t ≤ now
      → now < t + options.base_congestion_marking_interval
      → IsNotBefore (t + options.base_congestion_marking_interval) s.next_mark_time
      → IsNotBefore
          (t + options.base_congestion_marking_interval)
          (check_congestion_level options s queue_length now).0.next_mark_time
        × ((check_congestion_level options s queue_length now).1 ≡ false)
  unfolding check_congestion_level
  check-IsNotBefore t s none now from to h = (h, refl)
  check-IsNotBefore t s (some n) now from to h =
      elim (Bool-cases (ltb options.default_congestion_threshold n)) [
        | inl above ↦
            rw (above, check_congestion_level)
              (above-IsNotBefore t s.next_mark_time s now from to h h)
        | inr below ↦
            rw (below, check_congestion_level)
              (below-IsNotBefore (t + options.base_congestion_marking_interval) s.next_mark_time s
                h)
      ]

  -- If the next mark is not due before a base interval from a time on, and in particular if none is
  -- due, no packet sent within that interval is marked, whatever the queue does.
  pub check_congestion_level-IsNotBefore :
      (t : ℕ) (s : CongestionState) (packets : List (Option ℕ × ℕ))
      → IsNotBefore (t + options.base_congestion_marking_interval) s.next_mark_time
      → All (λ p. (t ≤ p.1) × (p.1 < t + options.base_congestion_marking_interval)) packets
      → All (λ marked. marked ≡ false) (send_all s packets).1
  unfolding send_all
  check_congestion_level-IsNotBefore t s [] h within = tt
  check_congestion_level-IsNotBefore t s ((n, now) ∷ packets) h ((from, to), within) =
      let first = check-IsNotBefore t s n now from to h in
      (
        first.1,
        check_congestion_level-IsNotBefore t (check_congestion_level options s n now).0 packets
            first.0 within,
      )

  count-above :
      (next : Option ℕ) (s : CongestionState) (now : ℕ)
      → (check_above options next s now).0.n_congestion_marked
        ≡ s.n_congestion_marked + (if (check_above options next s now).1 then 1 else 0)
  count-above none s now = omega arith
  count-above (some next) s now = ground arith

  count-below :
      (next : Option ℕ) (s : CongestionState)
      → (check_below options next s).0.n_congestion_marked
        ≡ s.n_congestion_marked + (if (check_below options next s).1 then 1 else 0)
  count-below none s = omega arith
  count-below (some next) s = omega arith

  count-check :
      (s : CongestionState) (queue_length : Option ℕ) (now : ℕ)
      → (check_congestion_level options s queue_length now).0.n_congestion_marked
        ≡ s.n_congestion_marked
          + (if (check_congestion_level options s queue_length now).1 then 1 else 0)
  unfolding check_congestion_level
  count-check s none now = omega arith
  count-check s (some n) now = elim (Bool-cases (ltb options.default_congestion_threshold n)) [
    | inl above ↦ rw (above, check_congestion_level) (count-above s.next_mark_time s now)
    | inr below ↦ rw (below, check_congestion_level) (count-below s.next_mark_time s)
  ]

  -- The counter grows by the number of packets that are marked.
  n_congestion_marked-count :
      (s : CongestionState) (packets : List (Option ℕ × ℕ))
      → (send_all s packets).0.n_congestion_marked
        ≡ s.n_congestion_marked + count_if (λ marked. marked) (send_all s packets).1
  unfolding send_all
  n_congestion_marked-count s [] = omega arith
  n_congestion_marked-count s ((n, now) ∷ packets) = ground (
    arith,
    count-check s n now,
    n_congestion_marked-count (check_congestion_level options s n now).0 packets,
  )
