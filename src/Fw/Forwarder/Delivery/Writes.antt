-- ===== src/Fw/Forwarder/Delivery/Writes.antt =====
-- What the writes of onIncomingData to a PIT entry leave as it is (daemon/fw/forwarder.cpp).
use mathlib.Core.Path.{subst, ◌∙◌}
use nfd.Base.{
  ℕ, ◌≡◌, ◌≢◌, refl, ◌⊎◌, inl, inr, Bool, true, false, List, [], ◌∷◌, Option, some, none, IsOneOf,
  Bool-cases, Option-cases, arith, ap, is_empty, if◌then◌else◌, find_if, update_if, erase_if,
}
use nfd.Base.Keyed.{has_key, find-update_ne}
use nfd.Packet.{Face, Data}
use nfd.Table.Pit.{Entry, InRecord, delete_in_record, delete_out_record}
use nfd.Table.PitTable.{Stored, Pit, id_of, get, modify}
use nfd.Fw.Forwarder.{
  Forwarder, Env, FaceEndpoint, insert_dead_nonce_list, needs_dead_nonce_list, set_expiry_timer,
  modify_entry,
}
use nfd.Fw.Strategy.{Strategy, Downstreams}
use nfd.Fw.Strategy.Base.{in_records_of, close_down, mark_satisfied}
use nfd.Fw.Forwarder.Delivery.Gathered.{Agrees}
use nfd.Fw.Forwarder.IncomingData.{satisfy_entry, add_entry_nonce, delete_in_records}

-- A write to one entry leaves the others.
pub get-modify :
    {Name : Type 0} (f : Entry Name → Entry Name) (i j : ℕ) (pit : Pit Name)
    → j ≢ i
    → get (modify f i pit) j ≡ get pit j
get-modify f i j pit ne =
    find-update_ne id_of (λ s. record s { entry = f s.entry }) (λ s. refl) i j pit.stored ne

module _ {Name : Type 0} (env : Env Name) (strategy_of : Name → Strategy env) where
  pit-insert_dead_nonce_list :
      (fw : Forwarder Name) (e : Entry Name) (upstream : Option Face)
      → (insert_dead_nonce_list env fw e upstream).pit ≡ fw.pit
  unfolding insert_dead_nonce_list
  pit-insert_dead_nonce_list fw e upstream = elim (Bool-cases (needs_dead_nonce_list env fw e)) [
    | inl needed ↦ rw (needed, insert_dead_nonce_list) refl
    | inr unneeded ↦ rw (unneeded, insert_dead_nonce_list) refl
  ]

  pit-add_entry_nonce :
      (fw : Forwarder Name) (upstream : Face) (stored : Option (Stored Name))
      → (add_entry_nonce env strategy_of fw upstream stored).pit ≡ fw.pit
  pit-add_entry_nonce fw upstream none = refl
  pit-add_entry_nonce fw upstream (some s) = pit-insert_dead_nonce_list fw s.entry (some upstream)

  get-close :
      (close : Bool) (fw : Forwarder Name) (i j now : ℕ)
      → j ≢ i
      → get (if close then close_down fw i now else fw).pit j ≡ get fw.pit j
  unfolding set_expiry_timer
  get-close true fw i j now ne =
      get-modify mark_satisfied i j (set_expiry_timer fw i 0 now).pit ne
      ∙ get-modify _ i j fw.pit ne
  get-close false fw i j now ne = refl

  pub get-satisfy_entry :
      (fw : Forwarder Name) (i j : ℕ) (packet : Data Name) (ingress : FaceEndpoint)
      (chosen : Downstreams) (now : ℕ)
      → j ≢ i
      → get (satisfy_entry env strategy_of fw i packet ingress chosen now).pit j ≡ get fw.pit j
  get-satisfy_entry fw i j packet ingress chosen now ne =
      let closed = if is_empty chosen.unsatisfied then close_down fw i now else fw in
      get-modify _ i j (add_entry_nonce env strategy_of closed ingress.face (get closed.pit i)).pit
        ne
      ∙ ap (λ pit. get pit j) (pit-add_entry_nonce closed ingress.face (get closed.pit i))
      ∙ get-close (is_empty chosen.unsatisfied) fw i j now ne

module _ {Name : Type 0} (face : Face) where
  -- Every in-record that refers to the face has the properties of the face.
  abbrev pub FacesAgree : Forwarder Name → Type 0
  FacesAgree fw =
      (j : ℕ) (r : InRecord Name) → IsOneOf r (in_records_of fw j) → Agrees face r.base.face

  found-update :
      (f : Entry Name → Entry Name) (i j : ℕ) (xs : List (Stored Name)) (s' : Stored Name)
      → find_if
          (has_key id_of j)
          (update_if (has_key id_of i) (λ s. record s { entry = f s.entry }) xs)
        ≡ some s'
      → (s : Stored Name) × (find_if (has_key id_of j) xs ≡ some s)
        × ((s'.entry ≡ s.entry) ⊎ (s'.entry ≡ f s.entry))
  found-update f i j [] s' h = absurd (ground arith)
  found-update f i j (x ∷ xs) s' h = elim (Bool-cases (has_key id_of i x)) [
    | inl written ↦ elim (Bool-cases (has_key id_of j x)) [
      | inl here ↦ (x, ground arith, inr (ground arith))
      | inr later ↦ (s', ground arith, inl refl)
    ]
    | inr other ↦ elim (Bool-cases (has_key id_of j x)) [
      | inl here ↦ (x, ground arith, inl (ground arith))
      | inr later ↦
          let (s, found, rest) = found-update f i j xs s' (ground arith) in (s, ground arith, rest)
    ]
  ]

  -- A write that drops in-records only.
  abbrev Drops : (Entry Name → Entry Name) → Type 0
  Drops f =
      (e : Entry Name) (r : InRecord Name) → IsOneOf r (f e).in_records → IsOneOf r e.in_records

  modify-FacesAgree :
      (f : Entry Name → Entry Name) (i : ℕ) (fw : Forwarder Name)
      → Drops f
      → FacesAgree fw
      → FacesAgree (modify_entry f i fw)
  modify-FacesAgree f i fw drops agree j r there = elim (Option-cases (get (modify f i fw.pit) j)) [
    | inl absent ↦ absurd (subst (IsOneOf r) {y = []} (rw (absent, in_records_of) refl) there)
    | inr (s', found') ↦
        let (s, found, same) = found-update f i j fw.pit.stored s' found' in
        let in_entry : IsOneOf r s'.entry.in_records =
          subst (IsOneOf r) (rw (found', in_records_of) refl) there in
        agree j r (
          rw (found, in_records_of)
            (elim same [
              | inl kept ↦ subst (λ e. IsOneOf r e.in_records) kept in_entry
              | inr written ↦ drops s.entry r (subst (λ e. IsOneOf r e.in_records) written in_entry)
            ]))
  ]

  erase_if-IsOneOf :
      (p : InRecord Name → Bool) (rs : List (InRecord Name)) (r : InRecord Name)
      → IsOneOf r (erase_if p rs)
      → IsOneOf r rs
  erase_if-IsOneOf p [] r h = h
  erase_if-IsOneOf p (x ∷ xs) r h = ground (arith, erase_if-IsOneOf p xs r)

  module _ (env : Env Name) (strategy_of : Name → Strategy env) where
    delete_in_records-Drops :
        (ds : List FaceEndpoint) → Drops (delete_in_records env strategy_of ds)
    unfolding delete_in_record
    delete_in_records-Drops [] e r h = h
    delete_in_records-Drops (d ∷ ds) e r h =
        erase_if-IsOneOf _ e.in_records r
          (delete_in_records-Drops ds (delete_in_record e d.face) r h)

    close-FacesAgree :
        (close : Bool) (fw : Forwarder Name) (i now : ℕ)
        → FacesAgree fw
        → FacesAgree (if close then close_down fw i now else fw)
    unfolding set_expiry_timer
    close-FacesAgree true fw i now agree =
        modify-FacesAgree mark_satisfied i (set_expiry_timer fw i 0 now) (λ e r h. h)
          (modify-FacesAgree _ i fw (λ e r h. h) agree)
    close-FacesAgree false fw i now agree = agree

    pub satisfy_entry-FacesAgree :
        (fw : Forwarder Name) (i : ℕ) (packet : Data Name) (ingress : FaceEndpoint)
        (chosen : Downstreams) (now : ℕ)
        → FacesAgree fw
        → FacesAgree (satisfy_entry env strategy_of fw i packet ingress chosen now)
    unfolding delete_out_record
    satisfy_entry-FacesAgree fw i packet ingress chosen now agree =
        let closed = if is_empty chosen.unsatisfied then close_down fw i now else fw in
        let noted = add_entry_nonce env strategy_of closed ingress.face (get closed.pit i) in
        let same = pit-add_entry_nonce env strategy_of closed ingress.face (get closed.pit i) in
        modify-FacesAgree _ i noted (λ e r h. delete_in_records-Drops chosen.satisfied _ r h)
          (λ j r there. close-FacesAgree (is_empty chosen.unsatisfied) fw i now agree j r (
            subst (λ pit. IsOneOf r (elim (get pit j) [ none ↦ [] | some s ↦ s.entry.in_records ]))
              same there))
