-- ===== src/Raft/Instance.antt =====
-- Distributed/raft/RaftInstance.hpp and RaftStateMachine.hpp: the state of one instance, and what
-- the user of the library supplies.
use tiny_backend.Prelude.{ℕ, Bool, true, false, Option, none, some, List, [], ◌∷◌, if◌then◌else◌}
use tiny_backend.Raft.Message.{Address, no_address, same, Message}

pub data State : Type 0 where
  leader candidate follower : State

abbrev pub is_leader : State → Bool
is_leader s = elim s [ State.leader ↦ true | _ ↦ false ]

abbrev pub is_candidate : State → Bool
is_candidate s = elim s [ State.candidate ↦ true | _ ↦ false ]

abbrev pub is_follower : State → Bool
is_follower s = elim s [ State.follower ↦ true | _ ↦ false ]

-- The map from a peer to the time of its last message.
abbrev pub Peers : Type 0
Peers = List (Address × ℕ)

-- `find` at the key.
abbrev pub find : Address → Peers → Option ℕ
find a [] = none
find a ((b, t) ∷ peers) = if same b a then some t else find a peers

abbrev pub contains : Address → Peers → Bool
contains a [] = false
contains a ((b, t) ∷ peers) = if same b a then true else contains a peers

-- An assignment to the time of a key that is there.
abbrev pub assign : Address → ℕ → Peers → Peers
assign a now [] = []
assign a now ((b, t) ∷ peers) = if same b a then (b, now) ∷ peers else (b, t) ∷ assign a now peers

-- `erase` at the key.
abbrev pub erase : Address → Peers → Peers
erase a [] = []
erase a ((b, t) ∷ peers) = if same b a then peers else (b, t) ∷ erase a peers

-- An instance over a user's state machine of type `M`. `outbox` is what was handed to the socket,
-- the last first; `reads` counts the readings of the clock.
pub record Instance (M : Type 0) : Type 0 where
  pub peers : Peers
  pub state : State
  pub leader : Address
  pub last_flush_time : ℕ
  pub version : ℕ
  pub serial_number : ℕ
  pub votes : ℕ
  pub machine : M
  pub outbox : List (Address × Message)
  pub reads : ℕ

-- The `n`-th reading of the system clock in nanoseconds, and the overrides of RaftStateMachine.
pub record Environment (M : Type 0) : Type 0 where
  pub clock : ℕ → ℕ
  pub can_be_leader : M → Address → Message → Bool × M
  pub leader_notify_message : M → Address → List ℕ × M
  pub need_synchronize_from : M → Address → Message → Bool × M
  pub ready_to_receiving : M → Address → Message → List ℕ × M
  pub ready_to_send_to : M → Address → Message → M
  pub update_log : M → M

-- The constructor of RaftInstance, without the peers that `add_peer` puts in.
abbrev pub initial : {M : Type 0} → Environment M → M → Instance M
initial env machine = record {
  peers = [];
  state = State.follower;
  leader = no_address;
  last_flush_time = env.clock 0;
  version = 0;
  serial_number = 0;
  votes = 0;
  machine = machine;
  outbox = [];
  reads = 1;
}

-- How a handler ends: with a new state, in the emergency exit of a split brain, or at an `assert`.
pub data Outcome {ℓ} (A : Type ℓ) : Type ℓ where
  running : A → Outcome A
  exited : Outcome A
  aborted : Outcome A

infixl 5 ◌>>=◌ ◌>>◌
abbrev pub ◌>>=◌ {ℓ κ} : {A : Type ℓ} {B : Type κ} → Outcome A → (A → Outcome B) → Outcome B
running a >>= f = f a
exited >>= f = exited
aborted >>= f = aborted

abbrev pub ◌>>◌ {ℓ} : {B : Type ℓ} → Outcome (Unit {0}) → Outcome B → Outcome B
m >> k = m >>= λ _. k

abbrev pub assert : Bool → Outcome (Unit {0})
assert true = running tt
assert false = aborted
