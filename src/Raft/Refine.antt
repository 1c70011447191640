-- ===== src/Raft/Refine.antt =====
-- The actions of Distributed/raft/src/RaftAgent.cpp are moves of the abstract node (Raft/Spec).

use tiny_backend.Prelude.{
  ap, ◌+◌, ◌≡◌, ◌≢◌, refl, true, false, not, ◌∷◌, ◌||◌, if◌then◌else◌, leb, arith, Bool-cases, inl,
  inr,
}
use tiny_backend.Version.{lt32, gt32}
use tiny_backend.Raft.Message.{Address, no_address, same, Message, add_extra_message}
use tiny_backend.Raft.Instance.{State, is_leader, is_candidate, contains, Instance, Environment}
use tiny_backend.Raft.Transmitter.{
  respond_leader, send_vote, request_logs, affirm_online, affirm_offline,
}
use tiny_backend.Raft.Agent.{
  Reference, at, majority, assert_split_brain, become_candidate, become_leader, change_leader_to,
  respond_leader_check, vote_to_be_leader, vote_to, accept_vote, new_one_online, peer_offline,
}
use tiny_backend.Raft.Frame.{
  Ends, Ends->>=, notify_follower-Kept, notify_all-Kept, request_votes-Kept,
}
use tiny_backend.Raft.Spec.{granted, Control, control, Move, Moves}

module _ {M : Type 0} where
  split_free :
      (s : Instance M) (message : Message)
      → assert_split_brain s message ≡ false
      → (lt32 message.version s.version ≡ false)
        × (message.version ≡ s.version → s.state ≢ State.leader)
  unfolding assert_split_brain
  split_free s message h = (ground arith, λ e l. ground arith)

  candidate_of :
      (s : Instance M) (message : Message)
      → (not (is_candidate s.state) || not message.choose) ≡ false
      → (s.state ≡ State.candidate) × (message.choose ≡ true)
  candidate_of s message h = (ground arith, ground arith)

  -- `s'` follows some leader, or none, in the version of the message.
  pub record Follows (s : Instance M) (message : Message) (s' : Instance M) : Type 0 where
    pub not_older : lt32 message.version s.version ≡ false
    pub no_rival : message.version ≡ s.version → s.state ≢ State.leader
    pub follower : control s' ≡ record {
      state = State.follower;
      leader = s'.leader;
      version = message.version;
      votes = 0;
      grants = granted s.outbox;
    }

  pub Follows-Moves :
      {Yes : Type 0} {s s' : Instance M} {message : Message} → Follows s message s' → Moves Yes s s'
  Follows-Moves {s = s} {s' = s'} {message = message} f =
      Move.follow s'.leader message.version f.not_older f.no_rival f.follower

  module _ (env : Environment M) where
    pub change_leader_to-Follows :
        (s : Instance M) (message : Message) (a : Address)
        → Ends (Follows s message) (change_leader_to env s message a)
    unfolding change_leader_to
    change_leader_to-Follows s message a = elim (Bool-cases (assert_split_brain s message)) [
      | inl split ↦ rw split tt
      | inr free ↦
          let (not_older, no_rival) = split_free s message free in
          rw free (record { not_older = not_older; no_rival = no_rival; follower = refl })
    ]

    -- A follower's answer to the check of its leader only sets its version.
    pub respond_leader_check-control :
        (s : Instance M) (message : Message)
        → Ends
            (λ s'.
              (s.state ≡ State.follower)
              × (control s' ≡ record (control s) { version = message.version }))
            (respond_leader_check env s message)
    unfolding respond_leader_check request_logs respond_leader granted add_extra_message
    respond_leader_check-control s message = ground arith

    pub vote_to-Moves :
        (Yes : Type 0) (s : Instance M) (message : Message) (a : Reference)
        → Ends (Moves Yes s) (vote_to env s message a)
    unfolding vote_to send_vote granted
    vote_to-Moves Yes s message a = elim (Bool-cases (gt32 message.version s.version)) [
      | inr old ↦ rw old (Move.stay refl)
      | inl newer ↦ rw newer (
          let asked = record s { machine = (env.can_be_leader s.machine (at s a) message).1 } in
          elim (Bool-cases (env.can_be_leader s.machine (at s a) message).0) [
            | inl agreed ↦ rw agreed (
                Ends->>= (Follows asked message) (Moves Yes s)
                  (change_leader_to env asked message (at asked a)) _
                  (change_leader_to-Follows asked message (at asked a))
                  (λ s' f. Move.grant s'.leader message.version newer f.not_older (
                    ap {A = Control} (λ c. record c { grants = c.version ∷ c.grants }) f.follower)))
            | inr refused ↦ rw refused (
                Ends->>= (Follows asked message) (Moves Yes s)
                  (change_leader_to env asked message no_address) _
                  (change_leader_to-Follows asked message no_address)
                  (λ s' f. Follows-Moves {s = asked} {s' = s'} f))
          ])
    ]

    pub accept_vote-Moves :
        {Yes : Type 0} (s : Instance M) (message : Message)
        → (s.state ≡ State.candidate → message.choose ≡ true → Yes)
        → Moves Yes s (accept_vote env s message)
    unfolding accept_vote become_leader
    accept_vote-Moves s message given =
        elim (Bool-cases (not (is_candidate s.state) || not message.choose)) [
          | inl ignored ↦ rw ignored (Move.stay refl)
          | inr counted ↦
              let (stands, chosen) = candidate_of s message counted in
              rw counted (elim (Bool-cases (leb (majority s) (s.votes + 1))) [
                | inl enough ↦ rw enough (
                    let elected = become_leader env (record s { votes = s.votes + 1 }) in
                    Move.elect (given stands chosen) stands (ground arith)
                      (notify_all-Kept env elected.peers elected).control_kept)
                | inr few ↦ rw few (Move.count (given stands chosen) stands (ground arith) refl)
              ])
        ]

    pub vote_to_be_leader-Moves :
        {Yes : Type 0} (s : Instance M)
        → s.state ≢ State.leader
        → Moves Yes s (vote_to_be_leader env s)
    unfolding vote_to_be_leader become_candidate
    vote_to_be_leader-Moves s h =
        let asking = become_candidate env s in
        Move.campaign h (request_votes-Kept env asking.peers asking).control_kept

    pub new_one_online-control :
        (s : Instance M) (a : Address) → control (new_one_online env s a) ≡ control s
    unfolding new_one_online affirm_online granted
    new_one_online-control s a =
        let emplaced = record s {
          peers = if contains a s.peers then s.peers else (a, env.clock s.reads) ∷ s.peers;
          reads = s.reads + 1;
        } in
        let (bytes, machine) = env.leader_notify_message s.machine a in
        elim (Bool-cases (is_leader s.state)) [
          | inl leads ↦
              rw leads
                (notify_follower-Kept env a bytes
                  (record emplaced { machine = machine })).control_kept
          | inr other ↦ rw other
        ]

    pub peer_offline-Moves :
        {Yes : Type 0} (s : Instance M) (a : Address) → Moves Yes s (peer_offline env s a)
    unfolding peer_offline affirm_offline granted
    peer_offline-Moves s a = elim (Bool-cases (same a s.leader)) [
      | inl gone ↦ rw gone (Move.lose refl)
      | inr other ↦ rw other (Move.stay refl)
    ]
