-- ===== src/Raft/Spec.antt =====
-- What an instance of Distributed/raft promises of its role, its leader, its version and its votes:
-- the moves of an abstract node, which the handlers refine (Raft/Refine).
use tiny_backend.Prelude.{List, [], ◌∷◌, true, if◌then◌else◌, ℕ, ◌+◌, ◌≤◌, ◌<◌, ◌≡◌, ◌≢◌, false}
use tiny_backend.Version.{increment32, lt32, gt32}
use tiny_backend.Raft.Message.{Address, no_address, MessageType, Message}
use tiny_backend.Raft.Instance.{State, Instance}
use tiny_backend.Raft.Agent.{majority}

-- The versions in which a vote was given, the last first.
unfoldable pub granted : List (Address × Message) → List ℕ
granted [] = []
granted ((_, m) ∷ sent) =
    let rest = granted sent in
    elim m.kind [ MessageType.vote ↦ if m.choose then m.version ∷ rest else rest | _ ↦ rest ]

-- `grants` is what was promised to others; it is no field of the instance.
pub record Control : Type 0 where
  pub state : State
  pub leader : Address
  pub version : ℕ
  pub votes : ℕ
  pub grants : List ℕ

abbrev pub control : {M : Type 0} → Instance M → Control
control s = record {
  state = s.state;
  leader = s.leader;
  version = s.version;
  votes = s.votes;
  grants = granted s.outbox;
}

-- The moves of a node in whose cluster `quorum` votes elect, when it gets a vote for itself only if
-- `Yes`.
pub data Move (quorum : ℕ) (Yes : Type 0) (c c' : Control) : Type 0 where
  stay : c' ≡ c → Move quorum Yes c c'
  campaign :
      c.state ≢ State.leader
      → c' ≡ record {
        state = State.candidate;
        leader = no_address;
        version = increment32 c.version;
        votes = 1;
        grants = c.grants;
      }
      → Move quorum Yes c c'
  count :
      Yes
      → c.state ≡ State.candidate
      → c.votes + 1 < quorum
      → c' ≡ record c { votes = c.votes + 1 }
      → Move quorum Yes c c'
  elect :
      Yes
      → c.state ≡ State.candidate
      → quorum ≤ c.votes + 1
      → c' ≡ record {
        state = State.leader;
        leader = no_address;
        version = c.version;
        votes = 0;
        grants = c.grants;
      }
      → Move quorum Yes c c'
  follow :
      (leader : Address) (version : ℕ)
      → lt32 version c.version ≡ false
      → (version ≡ c.version → c.state ≢ State.leader)
      → c' ≡ record {
        state = State.follower;
        leader = leader;
        version = version;
        votes = 0;
        grants = c.grants;
      }
      → Move quorum Yes c c'
  grant :
      (leader : Address) (version : ℕ)
      → gt32 version c.version ≡ true
      → lt32 version c.version ≡ false
      → c' ≡ record {
        state = State.follower;
        leader = leader;
        version = version;
        votes = 0;
        grants = version ∷ c.grants;
      }
      → Move quorum Yes c c'
  refresh :
      (version : ℕ)
      → c.state ≡ State.follower
      → lt32 version c.version ≡ false
      → c' ≡ record c { version = version }
      → Move quorum Yes c c'
  lose : c' ≡ record c { leader = no_address } → Move quorum Yes c c'

-- A vote for a candidate that stands in the version: a yes, and in no older version.
abbrev pub YesVote : (version : ℕ) → Message → Type 0
YesVote version message =
    (message.kind ≡ MessageType.vote)
    × (message.choose ≡ true)
    × (lt32 message.version version ≡ false)

-- A step of an instance is a move of its node.
abbrev pub Moves : {M : Type 0} → Type 0 → Instance M → Instance M → Type 0
Moves Yes s s' = Move (majority s) Yes (control s) (control s')
