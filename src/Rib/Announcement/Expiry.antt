-- ===== src/Rib/Announcement/Expiry.antt =====
-- The expiry of a RIB entry and the expiration of the announcement that is made for it
-- (daemon/rib/rib-entry.cpp, getPrefixAnnouncement).
use mathlib.Core.Path.{subst, sym, ap, ◌∙◌}
use nfd.Base.{
  ℕ, ◌-◌, ◌/◌, ◌≡◌, ◌≤◌, refl, List, [], ◌∷◌, Option, some, none, ltb, inl, inr, ◌⊎◌, arith,
  Bool-cases, All, IsOneOf, ltb→lt, ltb-false→le,
}
use nfd.Rib.Entry.{Route}
use nfd.Rib.Announcement.{
  Search, search_route, search_loop, clamp, expiration, TimePoint, time_min, at_time, time_max,
  later,
}

-- What the entry's expiry is after the loop: max() if some route never expires; otherwise the
-- latest of the expiries of the routes and of the expiry before.
abbrev pub IsLatest : TimePoint → Option ℕ → Type 0
IsLatest time_min e = ⊥
IsLatest (at_time t) none = ⊥
IsLatest (at_time t) (some u) = u ≤ t
IsLatest time_max e = Unit

later-IsLatest : (e : TimePoint) (u : ℕ) (o : Option ℕ) → IsLatest e o → IsLatest (later e u) o
later-IsLatest time_min u o h = absurd h
later-IsLatest (at_time t) u none h = absurd h
later-IsLatest (at_time t) u (some v) h = omega (arith, h)
later-IsLatest time_max u o h = tt

later-IsLatest_self : (e : TimePoint) (u : ℕ) → IsLatest (later e u) (some u)
later-IsLatest_self time_min u = omega arith
later-IsLatest_self (at_time t) u = omega arith
later-IsLatest_self time_max u = tt

later-cases : (e : TimePoint) (u : ℕ) → (later e u ≡ e) ⊎ (later e u ≡ at_time u)
later-cases time_min u = inr refl
later-cases (at_time s) u = elim (Bool-cases (ltb s u)) [
  | inl less ↦ inr (ap at_time (omega (arith, ltb→lt s u less)))
  | inr more ↦ inl (ap at_time (omega (arith, ltb-false→le s u more)))
]
later-cases time_max u = inl refl

module _ {Announcement : Type 0} where
  route-IsLatest :
      (expires : Option ℕ) (ann : Option Announcement) (s : Search Announcement) (o : Option ℕ)
      → IsLatest s.entry_expiry o
      → IsLatest (search_route expires ann s).entry_expiry o
  route-IsLatest none ann s o h = tt
  route-IsLatest (some u) none s o h = later-IsLatest s.entry_expiry u o h
  route-IsLatest (some u) (some a) s o h = later-IsLatest s.entry_expiry u o h

  route-IsLatest_self :
      (expires : Option ℕ) (ann : Option Announcement) (s : Search Announcement)
      → IsLatest (search_route expires ann s).entry_expiry expires
  route-IsLatest_self none ann s = tt
  route-IsLatest_self (some u) none s = later-IsLatest_self s.entry_expiry u
  route-IsLatest_self (some u) (some a) s = later-IsLatest_self s.entry_expiry u

  loop-IsLatest :
      (rs : List (Route Announcement)) (s : Search Announcement) (o : Option ℕ)
      → IsLatest s.entry_expiry o
      → IsLatest (search_loop rs s).entry_expiry o
  unfolding search_loop
  loop-IsLatest [] s o h = h
  loop-IsLatest (r ∷ rs) s o h =
      loop-IsLatest rs (search_route r.expires r.announcement s) o
        (route-IsLatest r.expires r.announcement s o h)

  pub loop-AllLatest :
      (rs : List (Route Announcement)) (s : Search Announcement)
      → All (λ r. IsLatest (search_loop rs s).entry_expiry r.expires) rs
  unfolding search_loop
  loop-AllLatest [] s = tt
  loop-AllLatest (r ∷ rs) s =
      let s' = search_route r.expires r.announcement s in
      (
        loop-IsLatest rs s' r.expires (route-IsLatest_self r.expires r.announcement s),
        loop-AllLatest rs s',
      )

  -- The expiry after the loop is the one before or that of a route.
  abbrev pub IsExpiryOf : List (Route Announcement) → TimePoint → Type 0
  IsExpiryOf rs time_min = ⊥
  IsExpiryOf rs (at_time t) = (r : Route Announcement) × IsOneOf r rs × (r.expires ≡ some t)
  IsExpiryOf rs time_max = (r : Route Announcement) × IsOneOf r rs × (r.expires ≡ none)

  weaken :
      (r : Route Announcement) (rs : List (Route Announcement)) (e : TimePoint)
      → IsExpiryOf rs e
      → IsExpiryOf (r ∷ rs) e
  weaken r rs time_min h = h
  weaken r rs (at_time t) (r', there, eq) = (r', inr there, eq)
  weaken r rs time_max (r', there, eq) = (r', inr there, eq)

  -- The expiry of the search is the one before or the route's.
  route_expiry :
      (expires : Option ℕ) (ann : Option Announcement) (s : Search Announcement)
      → ((search_route expires ann s).entry_expiry ≡ s.entry_expiry)
        ⊎ ((search_route expires ann s).entry_expiry
            ≡ (elim expires [ none ↦ time_max | some t ↦ at_time t ]))
  route_expiry none ann s = inr refl
  route_expiry (some t) none s = later-cases s.entry_expiry t
  route_expiry (some t) (some a) s = later-cases s.entry_expiry t

  own-IsExpiryOf :
      (r : Route Announcement) (rs : List (Route Announcement)) (o : Option ℕ)
      → r.expires ≡ o
      → IsExpiryOf (r ∷ rs) (elim o [ none ↦ time_max | some t ↦ at_time t ])
  own-IsExpiryOf r rs none eq = (r, inl refl, eq)
  own-IsExpiryOf r rs (some t) eq = (r, inl refl, eq)

  pub loop-IsExpiryOf :
      (rs : List (Route Announcement)) (s : Search Announcement)
      → ((search_loop rs s).entry_expiry ≡ s.entry_expiry)
        ⊎ IsExpiryOf rs (search_loop rs s).entry_expiry
  unfolding search_loop
  loop-IsExpiryOf [] s = inl refl
  loop-IsExpiryOf (r ∷ rs) s = elim (loop-IsExpiryOf rs (search_route r.expires r.announcement s)) [
    | inr later_one ↦ inr (weaken r rs _ later_one)
    | inl kept ↦ elim (route_expiry r.expires r.announcement s) [
      | inl old ↦ inl (kept ∙ old)
      | inr new ↦
          inr (subst (IsExpiryOf (r ∷ rs)) (sym (kept ∙ new)) (own-IsExpiryOf r rs r.expires refl))
    ]
  ]

  -- The expiration of the announcement that is made for the routes: the largest one if a route
  -- never expires, otherwise the time left until the latest expiry, within the bounds.
  abbrev pub IsMade : List (Route Announcement) → ℕ → ℕ → ℕ → ℕ → Type 0
  IsMade rs now low high d =
      ((r : Route Announcement) × IsOneOf r rs × (r.expires ≡ none) × (d ≡ high))
      ⊎ ((r : Route Announcement) × (t : ℕ) × IsOneOf r rs
          × (r.expires ≡ some t)
          × All (λ q. IsLatest (at_time t) q.expires) rs
          × (d ≡ clamp ((t - now) / 1000000) low high))

  pub expiration-IsMade :
      (rs : List (Route Announcement)) (e : TimePoint) (now low high : ℕ)
      → IsExpiryOf rs e
      → All (λ q. IsLatest e q.expires) rs
      → (d : ℕ) × (expiration e now low high ≡ some d) × IsMade rs now low high d
  expiration-IsMade rs time_min now low high none_there all = absurd none_there
  expiration-IsMade rs (at_time t) now low high (r, there, at) all =
      (clamp ((t - now) / 1000000) low high, refl, inr (r, t, there, at, all, refl))
  expiration-IsMade rs time_max now low high (r, there, never) all =
      (high, refl, inl (r, there, never, refl))
