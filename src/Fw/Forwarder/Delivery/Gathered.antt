-- ===== src/Fw/Forwarder/Delivery/Gathered.antt =====
-- The downstreams that a set of downstreams holds after additions (daemon/fw/strategy.cpp,
-- satisfyInterest).
use mathlib.Core.Path.{subst, sym}
use nfd.Base.{ℕ, ◌≡◌, refl, inl, inr, true, List, [], ◌∷◌, IsOneOf, any_of, Bool-cases, arith, ltb}
use nfd.Packet.{Face}
use nfd.Table.Pit.{InRecord}
use nfd.Fw.Forwarder.{FaceEndpoint}
use nfd.Fw.Strategy.{emplace, same_endpoint}
use nfd.Fw.Strategy.Base.{add_unexpired}

-- The downstream of an in-record of a face.
abbrev pub downstream : Face → FaceEndpoint
downstream face = record { face = face; endpoint = 0 }

-- A reference to the face is a reference to a face with its properties.
abbrev pub Agrees : Face → Face → Type 0
Agrees face other = other.ref ≡ face.ref → other ≡ face

abbrev pub AllAgree : Face → List FaceEndpoint → Type 0
AllAgree face ds = (d : FaceEndpoint) → IsOneOf d ds → Agrees face d.face

module _ (face : Face) where
  same-downstream :
      (d : FaceEndpoint)
      → Agrees face d.face
      → same_endpoint (downstream face) d ≡ true
      → downstream face ≡ d
  same-downstream d agrees same =
      let ref : d.face.ref ≡ face.ref = ground (arith, same) in
      let endpoint : 0 ≡ d.endpoint = ground (arith, same) in
      λ i. record { face = sym (agrees ref) i; endpoint = endpoint i }

  any_of-downstream :
      (ds : List FaceEndpoint)
      → AllAgree face ds
      → any_of (same_endpoint (downstream face)) ds ≡ true
      → IsOneOf (downstream face) ds
  any_of-downstream [] agree h = absurd (ground (arith, h))
  any_of-downstream (d ∷ ds) agree h = elim (Bool-cases (same_endpoint (downstream face) d)) [
    | inl same ↦ inl (same-downstream d (agree d (inl refl)) same)
    | inr other ↦
        inr (any_of-downstream ds (λ x there. agree x (inr there)) (ground (arith, other, h)))
  ]

  emplace-downstream :
      (ds : List FaceEndpoint)
      → AllAgree face ds
      → IsOneOf (downstream face) (emplace (downstream face) ds)
  emplace-downstream ds agree = elim (Bool-cases (any_of (same_endpoint (downstream face)) ds)) [
    | inl old ↦ rw old (any_of-downstream ds agree old)
    | inr fresh ↦ rw fresh (inl refl)
  ]

  emplace_keeps :
      (x : FaceEndpoint) (ds : List FaceEndpoint)
      → IsOneOf (downstream face) ds
      → IsOneOf (downstream face) (emplace x ds)
  emplace_keeps x ds has = elim (Bool-cases (any_of (same_endpoint x) ds)) [
    | inl old ↦ rw old has
    | inr fresh ↦ rw fresh (inr has)
  ]

  cons-AllAgree :
      (x : FaceEndpoint) (ds : List FaceEndpoint)
      → Agrees face x.face
      → AllAgree face ds
      → AllAgree face (x ∷ ds)
  cons-AllAgree x ds agrees agree d (inl same) = subst (λ y. Agrees face y.face) (sym same) agrees
  cons-AllAgree x ds agrees agree d (inr there) = agree d there

  emplace-AllAgree :
      (x : FaceEndpoint) (ds : List FaceEndpoint)
      → Agrees face x.face
      → AllAgree face ds
      → AllAgree face (emplace x ds)
  emplace-AllAgree x ds agrees agree = elim (Bool-cases (any_of (same_endpoint x) ds)) [
    | inl old ↦ rw old agree
    | inr fresh ↦ rw fresh (cons-AllAgree x ds agrees agree)
  ]

  module _ {Name : Type 0} (now : ℕ) where
    abbrev pub RecordsAgree : List (InRecord Name) → Type 0
    RecordsAgree rs = (r : InRecord Name) → IsOneOf r rs → Agrees face r.base.face

    pub add_keeps :
        (rs : List (InRecord Name)) (ds : List FaceEndpoint)
        → IsOneOf (downstream face) ds
        → IsOneOf (downstream face) (add_unexpired now rs ds)
    add_keeps [] ds has = has
    add_keeps (r ∷ rs) ds has = elim (Bool-cases (ltb now r.base.expiry)) [
      | inl unexpired ↦ rw unexpired (add_keeps rs _ (emplace_keeps _ ds has))
      | inr expired ↦ rw expired (add_keeps rs ds has)
    ]

    pub add-AllAgree :
        (rs : List (InRecord Name)) (ds : List FaceEndpoint)
        → RecordsAgree rs
        → AllAgree face ds
        → AllAgree face (add_unexpired now rs ds)
    add-AllAgree [] ds records agree = agree
    add-AllAgree (r ∷ rs) ds records agree = elim (Bool-cases (ltb now r.base.expiry)) [
      | inl unexpired ↦ rw unexpired (
          add-AllAgree rs _ (λ x there. records x (inr there))
            (emplace-AllAgree _ ds (records r (inl refl)) agree))
      | inr expired ↦ rw expired (add-AllAgree rs ds (λ x there. records x (inr there)) agree)
    ]

    pub add-downstream :
        (rs : List (InRecord Name)) (r : InRecord Name) (ds : List FaceEndpoint)
        → ltb now r.base.expiry ≡ true
        → r.base.face ≡ face
        → RecordsAgree rs
        → AllAgree face ds
        → IsOneOf r rs
        → IsOneOf (downstream face) (add_unexpired now rs ds)
    add-downstream [] r ds unexpired eq records agree none_there = elim none_there [ ]
    add-downstream (x ∷ rs) r ds unexpired eq records agree (inl same) =
        rw (subst (λ y. ltb now y.base.expiry ≡ true) same unexpired) (
          add_keeps rs _ (
            subst (λ f. IsOneOf (downstream face) (emplace (downstream f) ds))
              (sym (subst (λ y. y.base.face ≡ face) same eq)) (emplace-downstream ds agree)))
    add-downstream (x ∷ rs) r ds unexpired eq records agree (inr later) =
        let fewer : RecordsAgree rs = λ y there. records y (inr there) in
        elim (Bool-cases (ltb now x.base.expiry)) [
          | inl also ↦ rw also (
              add-downstream rs r _ unexpired eq fewer
                (emplace-AllAgree _ ds (records x (inl refl)) agree) later)
          | inr expired ↦ rw expired (add-downstream rs r ds unexpired eq fewer agree later)
        ]
