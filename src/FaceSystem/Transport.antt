-- ===== src/FaceSystem/Transport.antt =====
-- daemon/face/transport.{hpp,cpp}: the state, the counters and the properties of a transport.
--
-- An operation returns what happened: the transport after it and the packet that it handed on
-- (doSend, or receivePacket of the link service), or the exception. A packet is its size. What a
-- subclass adds are arguments: `close` calls doClose, and a subclass may change the state in it;
-- `can_change_impl` is the subclass's canChangePersistencyToImpl. The special values of an MTU are
-- constructors. The URIs, the capacity of the send queue and the expiration time, which only have
-- setters, are left out, and so are the links to the face and the link service.
pub mod Lifecycle
use nfd.Base.{
  ℕ, ◌+◌, Bool, true, false, ◌||◌, Option, some, none, List, [], ◌∷◌, if◌then◌else◌, not,
}
use nfd.Packet.{FaceScope, scope_none, LinkType, link_none}

pub data TransportState : Type 0 where
  state_none up down closing failed closed : TransportState

pub data FacePersistency : Type 0 where
  persistency_none on_demand persistent permanent : FacePersistency

pub data Mtu : Type 0 where
  mtu_invalid : Mtu
  mtu_unlimited : Mtu
  mtu : ℕ → Mtu

pub record Transport : Type 0 where
  pub scope : FaceScope
  pub persistency : FacePersistency
  pub link_type : LinkType
  pub mtu_of : Mtu
  pub state : TransportState
  pub n_in_packets : ℕ
  pub n_in_bytes : ℕ
  pub n_out_packets : ℕ
  pub n_out_bytes : ℕ

pub data Exception : Type 0 where
  invalid_state_transition : Exception

-- What an operation did.
pub data Outcome : Type 0 where
  done : Transport → Outcome
  hands_on : Transport → ℕ → Outcome
  throws : Exception → Outcome

abbrev pub is_same_state : TransportState → TransportState → Bool
is_same_state state_none state_none = true
is_same_state up up = true
is_same_state down down = true
is_same_state closing closing = true
is_same_state failed failed = true
is_same_state closed closed = true
is_same_state _ _ = false

abbrev pub is_same_persistency : FacePersistency → FacePersistency → Bool
is_same_persistency persistency_none persistency_none = true
is_same_persistency on_demand on_demand = true
is_same_persistency persistent persistent = true
is_same_persistency permanent permanent = true
is_same_persistency _ _ = false

abbrev pub is_up : TransportState → Bool
is_up s = is_same_state s up

abbrev pub is_usable : TransportState → Bool
is_usable s = is_same_state s up || is_same_state s down

-- `Transport()`: a subclass sets the properties.
abbrev pub new_transport : Transport
new_transport = record {
  scope = scope_none;
  persistency = persistency_none;
  link_type = link_none;
  mtu_of = mtu_invalid;
  state = up;
  n_in_packets = 0;
  n_in_bytes = 0;
  n_out_packets = 0;
  n_out_bytes = 0;
}

-- The switch of `setState`.
abbrev pub is_valid_transition : TransportState → TransportState → Bool
is_valid_transition up new_state =
    is_same_state new_state down
    || is_same_state new_state closing
    || is_same_state new_state failed
is_valid_transition down new_state =
    is_same_state new_state up || is_same_state new_state closing || is_same_state new_state failed
is_valid_transition closing new_state = is_same_state new_state closed
is_valid_transition failed new_state = is_same_state new_state closed
is_valid_transition closed new_state = false
is_valid_transition state_none new_state = false

unfoldable pub set_state : Transport → TransportState → Outcome
set_state t new_state =
    if is_same_state t.state new_state
    then done t
    else if is_valid_transition t.state new_state
    then done (record t { state = new_state })
    else throws invalid_state_transition

-- `close`, with what doClose does after the change of state.
unfoldable pub close : (Transport → Outcome) → Transport → Outcome
unfolding set_state
close do_close t =
    if is_usable t.state
    then elim (set_state t closing) [
      | done t' ↦ do_close t'
      | hands_on t' size ↦ hands_on t' size
      | throws e ↦ throws e
    ]
    else done t

unfoldable pub send : Transport → ℕ → Outcome
send t size =
    if is_usable t.state
    then (if is_up t.state
        then hands_on
            (record t { n_out_packets = t.n_out_packets + 1; n_out_bytes = t.n_out_bytes + size })
            size
        else hands_on t size)
    else done t

unfoldable pub receive : Transport → ℕ → Outcome
receive t size =
    hands_on (record t { n_in_packets = t.n_in_packets + 1; n_in_bytes = t.n_in_bytes + size }) size

unfoldable pub can_change_persistency_to :
    (FacePersistency → Bool) → Transport → FacePersistency → Bool
can_change_persistency_to can_change_impl t new_persistency =
    if is_same_persistency t.persistency new_persistency
      || is_same_persistency t.persistency persistency_none
    then true
    else if is_same_persistency new_persistency persistency_none
    then false
    else can_change_impl new_persistency

-- The transport after the call, and whether afterChangePersistency is called.
unfoldable pub set_persistency : Transport → FacePersistency → Transport × Bool
set_persistency t new_persistency =
    if is_same_persistency t.persistency new_persistency then (t, false) else (
      record t { persistency = new_persistency },
      not (is_same_persistency t.persistency persistency_none),
    )

unfoldable pub set_mtu : Transport → Mtu → Transport
set_mtu t mtu' = record t { mtu_of = mtu' }
