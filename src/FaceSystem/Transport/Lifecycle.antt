-- ===== src/FaceSystem/Transport/Lifecycle.antt =====
-- The life of a transport: its states and what it sends (daemon/face/transport.cpp).
use mathlib.Core.Path.{subst, sym, ap, ◌∙◌}
use nfd.Base.{
  ℕ, ◌≡◌, ◌≢◌, refl, inl, inr, ◌⊎◌, true, false, Option, some, none, List, [], ◌∷◌, ◌++◌, arith,
  Bool-cases, Option-cases, some_inj,
}
use nfd.FaceSystem.Transport.{
  TransportState, state_none, up, down, closing, failed, closed, Transport, Outcome, done, hands_on,
  throws, is_same_state, is_usable, is_valid_transition, set_state, close, send, receive,
  invalid_state_transition,
}

-- The transitions that the declaration of `setState` names.
pub data Valid : TransportState → TransportState → Type 0 where
  up_down : Valid up down
  down_up : Valid down up
  up_closing : Valid up closing
  down_closing : Valid down closing
  up_failed : Valid up failed
  down_failed : Valid down failed
  closing_closed : Valid closing closed
  failed_closed : Valid failed closed

same-state : (a b : TransportState) → is_same_state a b ≡ true → a ≡ b
same-state state_none state_none h = refl
same-state up up h = refl
same-state down down h = refl
same-state closing closing h = refl
same-state failed failed h = refl
same-state closed closed h = refl
same-state _ _ h = absurd (ground arith)

state-same : (a : TransportState) → is_same_state a a ≡ true
state-same state_none = refl
state-same up = refl
state-same down = refl
state-same closing = refl
state-same failed = refl
state-same closed = refl

Valid-transition : (a b : TransportState) → is_valid_transition a b ≡ true → Valid a b
Valid-transition up down h = up_down
Valid-transition down up h = down_up
Valid-transition up closing h = up_closing
Valid-transition down closing h = down_closing
Valid-transition up failed h = up_failed
Valid-transition down failed h = down_failed
Valid-transition closing closed h = closing_closed
Valid-transition failed closed h = failed_closed
Valid-transition _ _ h = absurd (ground arith)

transition-Valid : {a b : TransportState} → Valid a b → is_valid_transition a b ≡ true
transition-Valid up_down = refl
transition-Valid down_up = refl
transition-Valid up_closing = refl
transition-Valid down_closing = refl
transition-Valid up_failed = refl
transition-Valid down_failed = refl
transition-Valid closing_closed = refl
transition-Valid failed_closed = refl

true_ne_false : true ≡ false → ⊥
true_ne_false h = cc

-- Setting the state to what it is does nothing, a transition that the declaration names is made,
-- and every other one throws.
set_state_lem :
    (t : Transport) (s : TransportState)
    → ((t.state ≡ s) × (set_state t s ≡ done t))
      ⊎ (((t.state ≢ s) × (Valid t.state s) × (set_state t s ≡ done (record t { state = s })))
          ⊎ ((t.state ≢ s)
              × (Valid t.state s → ⊥)
              × (set_state t s ≡ throws invalid_state_transition)))
unfolding set_state
set_state_lem t s = elim (Bool-cases (is_same_state t.state s)) [
  | inl same ↦ inl (same-state t.state s same, rw (same, set_state) refl)
  | inr other ↦ elim (Bool-cases (is_valid_transition t.state s)) [
    | inl valid ↦
        inr
          (inl (differs other, Valid-transition t.state s valid, rw (other, valid, set_state) refl))
    | inr invalid ↦ inr (inr (differs other, refused invalid, rw (other, invalid, set_state) refl))
  ]
]
  where
    differs : is_same_state t.state s ≡ false → t.state ≢ s
    differs other h =
        true_ne_false (sym (state-same s) ∙ ap (λ a. is_same_state a s) (sym h) ∙ other)

    refused : is_valid_transition t.state s ≡ false → Valid t.state s → ⊥
    refused invalid v = true_ne_false (sym (transition-Valid v) ∙ invalid)

-- What a transport is asked to do. `closes` carries the changes of state that doClose makes.
pub data Event : Type 0 where
  sets_state : TransportState → Event
  closes : List TransportState → Event
  sends : ℕ → Event
  receives : ℕ → Event

-- The transport after an operation that does not pass a packet to doSend.
abbrev after : Outcome → Option (Transport × List ℕ)
after (done t) = some (t, [])
after (hands_on t size) = some (t, [])
after (throws e) = none

-- The same for `send`, which hands its packet to doSend.
abbrev after_send : Outcome → Option (Transport × List ℕ)
after_send (done t) = some (t, [])
after_send (hands_on t size) = some (t, size ∷ [])
after_send (throws e) = none

unfoldable pub set_states : Transport → List TransportState → Outcome
unfolding set_state
set_states t [] = done t
set_states t (s ∷ ss) = elim (set_state t s) [
  | done t' ↦ set_states t' ss
  | hands_on t' size ↦ hands_on t' size
  | throws e ↦ throws e
]

-- The transport after an event, and what was handed to doSend.
unfoldable pub step : Transport → Event → Option (Transport × List ℕ)
unfolding set_states close send receive
step t (sets_state s) = after (set_state t s)
step t (closes ss) = after (close (λ t'. set_states t' ss) t)
step t (sends size) = after_send (send t size)
step t (receives size) = after (receive t size)

-- The transport after a sequence of events none of which threw, and the packets handed to doSend.
unfoldable pub run : Transport → List Event → Option (Transport × List ℕ)
unfolding step
run t [] = some (t, [])
run t (event ∷ events) = elim (step t event) [
  | none ↦ none
  | some (t', sent) ↦ elim (run t' events) [
    | none ↦ none
    | some (t'', more) ↦ some (t'', sent ++ more)
  ]
]

-- `t'` is not usable and has counted no packet more than `t`, and none was handed to doSend.
abbrev IsSilent : Transport → Transport × List ℕ → Type 0
IsSilent t (t', sent) =
    (is_usable t'.state ≡ false)
    × (t'.n_out_packets ≡ t.n_out_packets)
    × (t'.n_out_bytes ≡ t.n_out_bytes)
    × (sent ≡ [])

unusable-transition :
    (a b : TransportState)
    → is_usable a ≡ false
    → is_valid_transition a b ≡ true
    → is_usable b ≡ false
unusable-transition closing closed h v = refl
unusable-transition failed closed h v = refl
unusable-transition _ _ h v = absurd (ground arith)

none_ne_some : {A : Type 0} {t : Transport × List ℕ} → none ≡ some t → A
none_ne_some h = absurd cc

step-IsSilent :
    (t : Transport) (event : Event) (t' : Transport × List ℕ)
    → is_usable t.state ≡ false
    → step t event ≡ some t'
    → IsSilent t t'
unfolding step set_state close send receive
step-IsSilent t (sets_state s) t' h ran = elim (Bool-cases (is_same_state t.state s)) [
  | inl same ↦
      subst (IsSilent t) {x = (t, [])} (some_inj (rw (same, set_state) refl ∙ ran))
        (h, refl, refl, refl)
  | inr other ↦ elim (Bool-cases (is_valid_transition t.state s)) [
    | inl valid ↦
        subst (IsSilent t) {x = (record t { state = s }, [])}
          (some_inj (rw (other, valid, set_state) refl ∙ ran))
          (unusable-transition t.state s h valid, refl, refl, refl)
    | inr invalid ↦ none_ne_some (rw (other, invalid, set_state) refl ∙ ran)
  ]
]
step-IsSilent t (closes ss) t' h ran =
    subst (IsSilent t) {x = (t, [])} (some_inj (rw (h, close) refl ∙ ran)) (h, refl, refl, refl)
step-IsSilent t (sends size) t' h ran =
    subst (IsSilent t) {x = (t, [])} (some_inj (rw (h, send) refl ∙ ran)) (h, refl, refl, refl)
step-IsSilent t (receives size) t' h ran = subst (IsSilent t) (some_inj ran) (h, refl, refl, refl)

-- A transport that is neither up nor down stays so through any calls none of which throws: no
-- packet is handed to doSend, and the counters of what was sent stay.
pub run-IsSilent :
    (t : Transport) (events : List Event) (t' : Transport) (sent : List ℕ)
    → is_usable t.state ≡ false
    → run t events ≡ some (t', sent)
    → IsSilent t (t', sent)
unfolding run
run-IsSilent t [] t' sent h ran = subst (IsSilent t) (some_inj ran) (h, refl, refl, refl)
run-IsSilent t (event ∷ events) t' sent h ran = elim (Option-cases (step t event)) [
  | inl threw ↦ none_ne_some (rw (threw, run) refl ∙ ran)
  | inr ((u, first_sent), stepped) ↦ elim (Option-cases (run u events)) [
    | inl threw ↦ none_ne_some (rw (stepped, threw, run) refl ∙ ran)
    | inr ((v, more), ran_on) ↦
        let first = step-IsSilent t event (u, first_sent) h stepped in
        let rest = run-IsSilent u events v more first.0 ran_on in
        subst (IsSilent t) {x = (v, first_sent ++ more)}
          (some_inj (rw (stepped, ran_on, run) refl ∙ ran))
          (rest.0, rest.1 ∙ first.1, rest.2 ∙ first.2, rw (first.3, rest.3) refl)
  ]
]
