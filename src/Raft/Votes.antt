-- ===== src/Raft/Votes.antt =====
-- Who gets an answer: the votes and the checks of Distributed/raft/src/RaftAgent.cpp.
use mathlib.Core.Path.{subst}
use tiny_backend.Prelude.{
  ◌+◌, ◌≢◌, ap, sym, ◌≡◌, refl, Bool, ◌&&◌, true, false, List, ◌∷◌, arith, Bool-cases, inl, inr,
}
use tiny_backend.Version.{lt32, gt32}
use tiny_backend.Raft.Message.{Address, no_address, MessageType, Message}
use tiny_backend.Raft.Instance.{State, is_leader, contains, assign, Instance, Environment}
use tiny_backend.Raft.Transmitter.{stamp, send_vote}
use tiny_backend.Raft.Agent.{
  plain, leader_field, check_outdated, assert_split_brain, change_leader_to, vote_to,
}
use tiny_backend.Raft.Handlers.{switch_from_leader, handle_messages_from_leader}
use tiny_backend.Raft.Frame.{Ends, Ends->>=, Returns, Returns->>=}

not_leading : {M : Type 0} (s : Instance M) → s.state ≢ State.leader → is_leader s.state ≡ false
not_leading s h = ground arith

current :
    {M : Type 0} (s : Instance M) (message : Message)
    → lt32 message.version s.version ≡ false
    → check_outdated s message ≡ false
unfolding check_outdated
current s message h = rw h

no_split :
    {M : Type 0} (s : Instance M) (message : Message)
    → s.state ≢ State.leader
    → lt32 message.version s.version ≡ false
    → assert_split_brain s message ≡ false
unfolding assert_split_brain
no_split s message o h = ground arith

-- The step put one vote into the outbox, for `to`.
pub record Voted {M : Type 0} (to : Address) (choice : Bool) (before : List (Address × Message))
    (s' : Instance M) : Type 0 where
  pub ballot : Message
  pub handed : s'.outbox ≡ (to, ballot) ∷ before
  pub is_vote : ballot.kind ≡ MessageType.vote
  pub choice_is : ballot.choose ≡ choice
  pub version_is : ballot.version ≡ s'.version

module _ {M : Type 0} (env : Environment M) where
  send_vote-Voted :
      (to : Address) (choice : Bool) (s t : Instance M)
      → t.outbox ≡ s.outbox
      → Voted to choice s.outbox (send_vote env to choice t)
  unfolding send_vote
  send_vote-Voted to choice s t e = record {
    ballot = record (stamp env MessageType.vote t) { choose = choice };
    handed = ap (◌∷◌ (to, record (stamp env MessageType.vote t) { choose = choice })) e;
    is_vote = refl;
    choice_is = refl;
    version_is = refl;
  }

  -- The postcondition of a change of leader.
  abbrev Led : Address → Instance M → Instance M → Type 0
  Led a s t = (t.outbox ≡ s.outbox) × (t.leader ≡ a)

  change_leader_to-Led :
      (s : Instance M) (message : Message) (a : Address)
      → Ends (Led a s) (change_leader_to env s message a)
  unfolding change_leader_to
  change_leader_to-Led s message a = elim (Bool-cases (assert_split_brain s message)) [
    | inl split ↦ rw split tt
    | inr free ↦ rw free (refl, refl)
  ]

  change_leader_to-Returns :
      (s : Instance M) (message : Message) (a : Address)
      → assert_split_brain s message ≡ false
      → Returns (Led a s) (change_leader_to env s message a)
  unfolding change_leader_to
  change_leader_to-Returns s message a free = rw free (refl, refl)

  -- A request for a vote from an address of its own is answered by one message to that address,
  -- which carries the version that the instance is then in. It is a yes if the version asked for is
  -- above that of the instance and the state machine accepts the sender, and a no otherwise.
  pub vote_to-Voted :
      (s : Instance M) (message : Message) (a : Address)
      → Ends
          (Voted a
            (gt32 message.version s.version && (env.can_be_leader s.machine a message).0)
            s.outbox)
          (vote_to env s message (plain a))
  unfolding vote_to
  vote_to-Voted s message a = elim (Bool-cases (gt32 message.version s.version)) [
    | inr old ↦ rw old (send_vote-Voted a false s s refl)
    | inl newer ↦ rw newer (
        let asked = record s { machine = (env.can_be_leader s.machine a message).1 } in
        elim (Bool-cases (env.can_be_leader s.machine a message).0) [
          | inl agreed ↦ rw agreed (
              Ends->>= (Led a s) (Voted a true s.outbox) (change_leader_to env asked message a) _
                (change_leader_to-Led asked message a) (λ t l. send_vote-Voted a true s t l.0))
          | inr refused ↦ rw refused (
              Ends->>= (Led no_address s) (Voted a false s.outbox)
                (change_leader_to env asked message no_address) _
                (change_leader_to-Led asked message no_address)
                (λ t l. send_vote-Voted a false s t l.0))
        ])
  ]

  refuse_leader :
      (s : Instance M) (message : Message)
      → gt32 message.version s.version ≡ true
      → assert_split_brain s message ≡ false
      → (env.can_be_leader s.machine s.leader message).0 ≡ false
      → Returns (Voted no_address false s.outbox) (vote_to env s message leader_field)
  unfolding vote_to
  refuse_leader s message newer free refused =
      let asked = record s { machine = (env.can_be_leader s.machine s.leader message).1 } in
      rw (newer, refused)
        (Returns->>= (Led no_address s) (Voted no_address false s.outbox)
          (change_leader_to env asked message no_address) _
          (change_leader_to-Returns asked message no_address (unfold assert_split_brain in free))
          (λ t l.
            subst (λ to. Voted no_address false s.outbox (send_vote env to false t)) (sym l.1)
              (send_vote-Voted no_address false s t l.0)))

  -- The refusal that the state machine makes of a newer version asked for by the present leader goes
  -- to the empty address, though the leader is a known peer: the handler passes the field `_leader`
  -- by reference, and clears it before it sends.
  pub leader_refusal_lost :
      (s : Instance M) (message : Message)
      → s.state ≢ State.leader
      → contains s.leader s.peers ≡ true
      → message.kind ≡ MessageType.ask_for_vote
      → gt32 message.version s.version ≡ true
      → lt32 message.version s.version ≡ false
      → (env.can_be_leader s.machine s.leader message).0 ≡ false
      → Returns (Voted no_address false s.outbox) (handle_messages_from_leader env s message)
  unfolding handle_messages_from_leader
  leader_refusal_lost s message other known k g l r =
      let heard = record s {
        peers = assign s.leader (env.clock s.reads) s.peers;
        last_flush_time = env.clock s.reads;
        reads = s.reads + 1;
      } in
      rw (not_leading s other, current s message l, known)
        (subst
          (λ kind.
            Returns (Voted no_address false s.outbox) (switch_from_leader env heard message kind))
          (sym k)
          (unfold switch_from_leader in
            refuse_leader heard message g (no_split heard message other l) r))
