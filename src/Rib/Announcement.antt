-- ===== src/Rib/Announcement.antt =====
-- daemon/rib/rib-entry.cpp, getPrefixAnnouncement: the announcement with which a RIB entry answers.
--
-- An announcement that is made is its name and its expiration in milliseconds. `now` is the steady
-- clock at the call, in nanoseconds; a time point before it gives a negative duration, which the
-- bounds, natural numbers, take like 0. Subtracting the clock from min(), which is what is left for
-- an entry without routes, overflows: the result is then undefined, and `none` here.
pub mod Best
pub mod Expiry
use nfd.Base.{ℕ, ◌-◌, ◌/◌, max, Bool, true, List, [], ◌∷◌, Option, some, none, ltb, if◌then◌else◌}
use mathlib.Core.Option
use nfd.Rib.Entry.{Route, RibEntry}

-- A time point of the loop: min(), the expiry of a route, or max().
pub data TimePoint : Type 0 where
  time_min : TimePoint
  at_time : ℕ → TimePoint
  time_max : TimePoint

-- The variables of the loop: the best announcement so far with the expiry of its route.
pub record Search (Announcement : Type 0) : Type 0 where
  pub best : Option (Announcement × ℕ)
  pub entry_expiry : TimePoint

-- What is returned: the announcement of a route, or one that is made.
pub data PrefixAnnouncement (Name Announcement : Type 0) : Type 0 where
  of_route : Announcement → PrefixAnnouncement Name Announcement
  made : Name → ℕ → PrefixAnnouncement Name Announcement

-- `std::max` of time points.
abbrev pub later : TimePoint → ℕ → TimePoint
later time_min t = at_time t
later (at_time s) t = at_time (max s t)
later time_max t = time_max

abbrev pub is_better : ℕ → {Announcement : Type 0} → Option (Announcement × ℕ) → Bool
is_better t none = true
is_better t (some (_, s)) = ltb s t

abbrev pub clamp : ℕ → ℕ → ℕ → ℕ
clamp n low high = if ltb n low then low else if ltb high n then high else n

-- The clamped duration until a time point; the one until max() is above every bound.
abbrev pub expiration : TimePoint → ℕ → ℕ → ℕ → Option ℕ
expiration time_min now low high = none
expiration (at_time t) now low high = some (clamp ((t - now) / 1000000) low high)
expiration time_max now low high = some high

module _ {Announcement : Type 0} where
  -- The body of the loop, for the expiry and the announcement of a route.
  abbrev pub search_route :
      Option ℕ → Option Announcement → Search Announcement → Search Announcement
  search_route none ann s = record s { entry_expiry = time_max }
  search_route (some t) none s = record s { entry_expiry = later s.entry_expiry t }
  search_route (some t) (some a) s = record {
    best = if is_better t s.best then some (a, t) else s.best;
    entry_expiry = later s.entry_expiry t;
  }

  unfoldable pub search_loop : List (Route Announcement) → Search Announcement → Search Announcement
  search_loop [] s = s
  search_loop (r ∷ rs) s = search_loop rs (search_route r.expires r.announcement s)

  abbrev pub answer :
      {Name : Type 0}
      → Name
      → ℕ
      → ℕ
      → ℕ
      → Option (Announcement × ℕ)
      → TimePoint
      → Option (PrefixAnnouncement Name Announcement)
  answer name min_expiration max_expiration now (some (a, _)) expiry = some (of_route a)
  answer name min_expiration max_expiration now none expiry =
      Option.map (λ d. made name d) (expiration expiry now min_expiration max_expiration)

  unfoldable pub get_prefix_announcement :
      {Name : Type 0}
      → RibEntry Name Announcement
      → ℕ
      → ℕ
      → ℕ
      → Option (PrefixAnnouncement Name Announcement)
  unfolding search_loop
  get_prefix_announcement e min_expiration max_expiration now =
      let s = search_loop e.routes (record { best = none; entry_expiry = time_min }) in
      answer e.name min_expiration max_expiration now s.best s.entry_expiry
