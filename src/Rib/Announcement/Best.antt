-- ===== src/Rib/Announcement/Best.antt =====
-- Which announcement is returned (daemon/rib/rib-entry.cpp, getPrefixAnnouncement).
use mathlib.Core.Path.{subst, ap, ◌∙◌}
use nfd.Base.{
  ℕ, ◌≡◌, ◌≤◌, refl, List, [], ◌∷◌, Option, some, none, ltb, inl, inr, ◌⊎◌, if◌then◌else◌, arith,
  Bool-cases, All, IsOneOf, ltb→lt, ltb-false→le,
}
use mathlib.Core.Option
use nfd.Rib.Announcement.Expiry.{
  IsLatest, IsExpiryOf, IsMade, loop-AllLatest, loop-IsExpiryOf, expiration-IsMade,
}
use nfd.Rib.Entry.{Route, RibEntry}
use nfd.Rib.Announcement.{
  Search, of_route, made, search_route, search_loop, answer, get_prefix_announcement, is_better,
  time_min,
}

module _ {Announcement : Type 0} where
  -- The route has an announcement and expires at a time.
  abbrev pub Announces : Route Announcement → Announcement → ℕ → Type 0
  Announces r a t = (r.expires ≡ some t) × (r.announcement ≡ some a)

  -- The best announcement is not older than one with the expiry `t`.
  abbrev pub Covers : ℕ → Option (Announcement × ℕ) → Type 0
  Covers t none = ⊥
  Covers t (some (_, s)) = t ≤ s

  -- No announcement of the route expires later than the best.
  abbrev pub IsCovered : Option (Announcement × ℕ) → Route Announcement → Type 0
  IsCovered best r = (a : Announcement) (t : ℕ) → Announces r a t → Covers t best

  abbrev improved : Announcement → ℕ → Option (Announcement × ℕ) → Option (Announcement × ℕ)
  improved a t best = if is_better t best then some (a, t) else best

  improved-Covers :
      (a : Announcement) (u t : ℕ) (best : Option (Announcement × ℕ))
      → Covers t best
      → Covers t (improved a u best)
  improved-Covers a u t none c = absurd c
  improved-Covers a u t (some (b, s)) c = elim (Bool-cases (ltb s u)) [
    | inl better ↦ rw better (omega (arith, ltb→lt s u better, c))
    | inr not_better ↦ rw not_better c
  ]

  improved-Covers_self :
      (a : Announcement) (t : ℕ) (best : Option (Announcement × ℕ)) → Covers t (improved a t best)
  improved-Covers_self a t none = omega arith
  improved-Covers_self a t (some (b, s)) = elim (Bool-cases (ltb s t)) [
    | inl better ↦ rw better (omega arith)
    | inr not_better ↦ rw not_better (ltb-false→le s t not_better)
  ]

  route-Covers :
      (expires : Option ℕ) (ann : Option Announcement) (s : Search Announcement) (t : ℕ)
      → Covers t s.best
      → Covers t (search_route expires ann s).best
  route-Covers none ann s t c = c
  route-Covers (some u) none s t c = c
  route-Covers (some u) (some a) s t c = improved-Covers a u t s.best c

  loop-Covers :
      (rs : List (Route Announcement)) (s : Search Announcement) (t : ℕ)
      → Covers t s.best
      → Covers t (search_loop rs s).best
  unfolding search_loop
  loop-Covers [] s t c = c
  loop-Covers (r ∷ rs) s t c =
      loop-Covers rs (search_route r.expires r.announcement s) t
        (route-Covers r.expires r.announcement s t c)

  loop-IsCovered :
      (rs : List (Route Announcement)) (s : Search Announcement)
      → All (IsCovered (search_loop rs s).best) rs
  unfolding search_loop
  loop-IsCovered [] s = tt
  loop-IsCovered (r ∷ rs) s = (
    λ a t announces.
        loop-Covers rs (search_route r.expires r.announcement s) t (covered a t announces),
    loop-IsCovered rs (search_route r.expires r.announcement s),
  )
    where
      covered :
          (a : Announcement) (t : ℕ)
          → Announces r a t
          → Covers t (search_route r.expires r.announcement s).best
      covered a t (at, has) = rw at (rw has (improved-Covers_self a t s.best))

  -- The best announcement is one that was there before or that of a route.
  abbrev IsFrom :
      List (Route Announcement) → Option (Announcement × ℕ) → Option (Announcement × ℕ) → Type 0
  IsFrom rs before best =
      (best ≡ before)
      ⊎ ((r : Route Announcement) × (a : Announcement) × (t : ℕ) × (IsOneOf r rs
            × (Announces r a t × (best ≡ some (a, t)))))

  improved-from :
      (a : Announcement) (t : ℕ) (best : Option (Announcement × ℕ))
      → (improved a t best ≡ best) ⊎ (improved a t best ≡ some (a, t))
  improved-from a t best = elim (Bool-cases (is_better t best)) [
    | inl better ↦ inr (rw better refl)
    | inr not_better ↦ inl (rw not_better refl)
  ]

  route_from :
      (expires : Option ℕ) (ann : Option Announcement) (s : Search Announcement)
      → ((search_route expires ann s).best ≡ s.best)
        ⊎ ((a : Announcement) × (t : ℕ) × ((expires ≡ some t)
              × ((ann ≡ some a) × ((search_route expires ann s).best ≡ some (a, t)))))
  route_from none ann s = inl refl
  route_from (some t) none s = inl refl
  route_from (some t) (some a) s = elim (improved-from a t s.best) [
    | inl old ↦ inl old
    | inr new ↦ inr (a, t, (refl, (refl, new)))
  ]

  loop-IsFrom :
      (rs : List (Route Announcement)) (s : Search Announcement)
      → IsFrom rs s.best (search_loop rs s).best
  unfolding search_loop
  loop-IsFrom [] s = inl refl
  loop-IsFrom (r ∷ rs) s = elim (loop-IsFrom rs (search_route r.expires r.announcement s)) [
    | inr (r', a, t, (there, rest)) ↦ inr (r', a, t, (inr there, rest))
    | inl kept ↦ elim (route_from r.expires r.announcement s) [
      | inl old ↦ inl (kept ∙ old)
      | inr (a, t, (at, (has, new))) ↦ inr (r, a, t, (inl refl, ((at, has), kept ∙ new)))
    ]
  ]

  -- For an entry with routes, and bounds in order, there is an answer. If a route with an expiry
  -- has an announcement, the answer is the announcement of such a route, and no other of them
  -- expires later. If none has, an announcement of the entry's name is made, even if a route that
  -- never expires has one; its expiration is the largest one if a route never expires, and
  -- otherwise the time left until the latest expiry in whole milliseconds, confined within the
  -- bounds.
  pub get_prefix_announcement_lem :
      {Name : Type 0} (e : RibEntry Name Announcement) (min_expiration max_expiration now : ℕ)
      (first : Route Announcement) (rest : List (Route Announcement))
      → e.routes ≡ first ∷ rest
      → min_expiration ≤ max_expiration
      → ((r : Route Announcement) × (a : Announcement) × (t : ℕ) × (IsOneOf r e.routes
            × (Announces r a t
                × ((get_prefix_announcement e min_expiration max_expiration now ≡ some (of_route a))
                    × All (IsCovered (some (a, t))) e.routes))))
        ⊎ ((d : ℕ) × ((get_prefix_announcement e min_expiration max_expiration now
                ≡ some (made e.name d))
              × (IsMade e.routes now min_expiration max_expiration d
                  × All (IsCovered none) e.routes)))
  unfolding get_prefix_announcement
  get_prefix_announcement_lem e min_expiration max_expiration now first rest routes ordered =
      elim (loop-IsFrom e.routes start) [
        | inr (r, a, t, (there, (announces, found))) ↦ inl (
          r,
          a,
          t,
          (
            there,
            (
              announces,
              (
                ap (λ b. answer e.name min_expiration max_expiration now b final.entry_expiry)
                    found,
                subst (λ b. All (IsCovered b) e.routes) found (loop-IsCovered e.routes start),
              ),
            ),
          ),
        )
        | inl nothing ↦
            let (d, eq, is_made) =
              expiration-IsMade e.routes final.entry_expiry now min_expiration max_expiration
                has_expiry (loop-AllLatest e.routes start) in
            inr (
              d,
              (
                ap (λ b. answer e.name min_expiration max_expiration now b final.entry_expiry)
                      nothing
                    ∙ ap (Option.map (λ d. made e.name d)) eq,
                (
                  is_made,
                  subst (λ b. All (IsCovered b) e.routes) nothing (loop-IsCovered e.routes start),
                ),
              ),
            )
      ]
    where
      start : Search Announcement
      start = record { best = none; entry_expiry = time_min }

      final : Search Announcement
      final = search_loop e.routes start

      first-IsLatest : IsLatest final.entry_expiry first.expires
      first-IsLatest =
          (subst (λ rs. All (λ r. IsLatest final.entry_expiry r.expires) rs) routes
            (loop-AllLatest e.routes start)).0

      has_expiry : IsExpiryOf e.routes final.entry_expiry
      has_expiry = elim (loop-IsExpiryOf e.routes start) [
        | inr found ↦ found
        | inl untouched ↦ absurd (subst (λ p. IsLatest p first.expires) untouched first-IsLatest)
      ]
