-- ===== src/Raft/Switches.antt =====
-- What an instance of Distributed/raft does with a message is one move of the abstract node
-- (Raft/Spec).
use mathlib.Core.Path.{subst, subst₂}
use tiny_backend.Prelude.{
  ◌+◌, ◌/◌, ◌≡◌, refl, ◌∙◌, sym, ap, true, false, not, ◌&&◌, arith, Bool-cases, inl, inr,
}
use tiny_backend.Version.{lt32}
use tiny_backend.Raft.Message.{Address, same, MessageType, Message}
use tiny_backend.Raft.Instance.{State, is_leader, Instance, Environment, ◌>>=◌, assign, contains}
use tiny_backend.Raft.Agent.{
  plain, leader_field, majority, is_membership, check_outdated, change_leader_to,
  respond_leader_check, greet, synchronize_logs,
}
use tiny_backend.Raft.Handlers.{
  rival_check, switch_from_follower, handle_messages_from_follower, switch_from_leader,
  handle_messages_from_leader, switch_from_peer, handle_messages_from_peer,
}
use tiny_backend.Raft.Frame.{
  Ends, Ends->>=, Ends-map, Kept, notify_follower-Kept, greet-Kept, length-assign,
}
use tiny_backend.Raft.Spec.{Control, control, Move, YesVote, Moves}
use tiny_backend.Raft.Refine.{
  Follows, Follows-Moves, change_leader_to-Follows, respond_leader_check-control, vote_to-Moves,
  accept_vote-Moves, new_one_online-control, peer_offline-Moves,
}

module _ {M : Type 0} where
  Moves-before : {Yes : Type 0} (s t u : Instance M) → Kept s t → Moves Yes t u → Moves Yes s u
  Moves-before {Yes = Yes} s t u k m =
      subst₂ (λ n c. Move ((n + 1) / 2 + 1) Yes c (control u)) k.size_kept k.control_kept m

  pub Moves-after :
      {Yes : Type 0} (s t u : Instance M) → Moves Yes s t → control u ≡ control t → Moves Yes s u
  Moves-after {Yes = Yes} s t u m e = subst (Move (majority s) Yes (control s)) (sym e) m

  leads_not :
      (s t : Instance M)
      → t.state ≡ s.state
      → is_leader s.state ≡ true
      → t.state ≡ State.candidate
      → ⊥
  leads_not s t e l c = ground arith

  in_time :
      (s : Instance M) (message : Message)
      → message.kind ≡ MessageType.vote
      → check_outdated s message ≡ false
      → lt32 message.version s.version ≡ false
  unfolding check_outdated
  in_time s message v h =
      let other : is_membership message.kind ≡ false = ap is_membership v in ground (arith, other)

  -- The postcondition of `respond_leader_check-control`.
  abbrev Responded : Instance M → Message → Instance M → Type 0
  Responded s message s' =
      (s.state ≡ State.follower) × (control s' ≡ record (control s) { version = message.version })

  module _ (env : Environment M) where
    -- Following the sender of a leader's check, and answering it, is one move.
    follow_and_respond-Moves :
        (Yes : Type 0) (s : Instance M) (message : Message) (a : Address)
        → Ends
            (Moves Yes s)
            (change_leader_to env s message a >>= λ s'. respond_leader_check env s' message)
    follow_and_respond-Moves Yes s message a =
        Ends->>= (Follows s message) (Moves Yes s) (change_leader_to env s message a) _
          (change_leader_to-Follows env s message a)
          (λ t f.
            Ends-map (Responded t message) (Moves Yes s) (respond_leader_check env t message)
              (respond_leader_check-control env t message)
              (λ u r. Moves-after s t u (Follows-Moves {s' = t} f) (
                r.1
                ∙ ap {A = Control} (λ c. record c { version = message.version }) f.follower
                ∙ sym f.follower)))

    rival_check-Moves :
        (Yes : Type 0) (s : Instance M) (message : Message) (a : Address)
        → Ends (Moves Yes s) (rival_check env s message a)
    unfolding rival_check
    rival_check-Moves Yes s message a =
        let (can_be_leader, machine) = env.can_be_leader s.machine a message in
        let asked = record s { machine = machine } in
        let (bytes, machine') = env.leader_notify_message machine a in
        elim (Bool-cases (lt32 message.version s.version)) [
          | inr newer ↦ rw newer (follow_and_respond-Moves Yes s message a)
          | inl older ↦ rw older (elim (Bool-cases can_be_leader) [
            | inl may ↦ rw may (
                Move.stay
                  (notify_follower-Kept env a bytes (record s { machine = machine' })).control_kept)
            | inr never ↦ rw never (follow_and_respond-Moves Yes asked message a)
          ])
        ]

    switch_from_follower-Moves :
        (Yes : Type 0) (s : Instance M) (message : Message) (a : Address) (kind : MessageType)
        → (s.state ≡ State.candidate → kind ≡ MessageType.vote → message.choose ≡ true → Yes)
        → Ends (Moves Yes s) (switch_from_follower env s message a kind)
    unfolding switch_from_follower synchronize_logs
    switch_from_follower-Moves Yes s message a MessageType.follower_ack given = Move.stay refl
    switch_from_follower-Moves Yes s message a MessageType.request given = Move.stay refl
    switch_from_follower-Moves Yes s message a MessageType.ask_for_vote given =
        vote_to-Moves env Yes s message (plain a)
    switch_from_follower-Moves Yes s message a MessageType.vote given =
        accept_vote-Moves env s message (λ c. given c refl)
    switch_from_follower-Moves Yes s message a MessageType.online given =
        Move.stay (new_one_online-control env s a)
    switch_from_follower-Moves Yes s message a MessageType.offline given =
        peer_offline-Moves env s a
    switch_from_follower-Moves Yes s message a MessageType.leader_check given =
        rival_check-Moves Yes s message a
    switch_from_follower-Moves Yes s message a _ given = Move.stay refl

    switch_from_leader-Moves :
        (Yes : Type 0) (s : Instance M) (message : Message) (kind : MessageType)
        → (lt32 message.version s.version && not (is_membership kind)) ≡ false
        → Ends (Moves Yes s) (switch_from_leader env s message kind)
    unfolding switch_from_leader
    switch_from_leader-Moves Yes s message MessageType.leader_check h =
        Ends-map (Responded s message) (Moves Yes s) (respond_leader_check env s message)
          (respond_leader_check-control env s message)
          (λ u r. Move.refresh message.version r.0 (ground arith) r.1)
    switch_from_leader-Moves Yes s message MessageType.ask_for_vote h =
        vote_to-Moves env Yes s message leader_field
    switch_from_leader-Moves Yes s message MessageType.offline h = peer_offline-Moves env s s.leader
    switch_from_leader-Moves Yes s message _ h = Move.stay refl

    switch_from_peer-Moves :
        (Yes : Type 0) (s : Instance M) (message : Message) (a : Address) (kind : MessageType)
        → (s.state ≡ State.candidate → kind ≡ MessageType.vote → message.choose ≡ true → Yes)
        → Ends (Moves Yes s) (switch_from_peer env s message a kind)
    unfolding switch_from_peer
    switch_from_peer-Moves Yes s message a MessageType.ask_for_vote given =
        vote_to-Moves env Yes s message (plain a)
    switch_from_peer-Moves Yes s message a MessageType.vote given =
        accept_vote-Moves env s message (λ c. given c refl)
    switch_from_peer-Moves Yes s message a MessageType.leader_check given =
        follow_and_respond-Moves Yes s message a
    switch_from_peer-Moves Yes s message a MessageType.online given =
        Move.stay (new_one_online-control env s a)
    switch_from_peer-Moves Yes s message a MessageType.offline given = peer_offline-Moves env s a
    switch_from_peer-Moves Yes s message a _ given = Move.stay refl

    pub handle_messages_from_follower-Moves :
        (Yes : Type 0) (s : Instance M) (message : Message) (a : Address)
        → (YesVote s.version message → Yes)
        → Ends (Moves Yes s) (handle_messages_from_follower env s message a)
    unfolding handle_messages_from_follower
    handle_messages_from_follower-Moves Yes s message a given =
        elim (Bool-cases (is_leader s.state)) [
          | inr other ↦ rw other tt
          | inl leads ↦ rw leads (
              Ends->>= (Kept s) (Moves Yes s) (greet env s message a) _ (greet-Kept env s message a)
                (λ t k.
                  Ends-map (Moves Yes t) (Moves Yes s) _
                    (switch_from_follower-Moves Yes t message a message.kind (λ c.
                      absurd
                        (leads_not s t (ap (λ (x : Control). x.state) k.control_kept) leads c)))
                    (λ u m. Moves-before s t u k m)))
        ]

    pub handle_messages_from_leader-Moves :
        (Yes : Type 0) (s : Instance M) (message : Message)
        → Ends (Moves Yes s) (handle_messages_from_leader env s message)
    unfolding handle_messages_from_leader
    handle_messages_from_leader-Moves Yes s message =
        let heard = record s {
          peers = assign s.leader (env.clock s.reads) s.peers;
          last_flush_time = env.clock s.reads;
          reads = s.reads + 1;
        } in
        elim (Bool-cases (is_leader s.state)) [
          | inl leads ↦ rw leads tt
          | inr other ↦ rw other (elim (Bool-cases (check_outdated s message)) [
            | inl old ↦ rw old (Move.stay refl)
            | inr current ↦ rw current (elim (Bool-cases (contains s.leader s.peers)) [
              | inr unknown ↦ rw unknown tt
              | inl known ↦ rw known (
                  Ends-map (Moves Yes heard) (Moves Yes s) _
                    (switch_from_leader-Moves Yes heard message message.kind
                      (unfold check_outdated in current))
                    (λ u m.
                      Moves-before s heard u
                        (record {
                          control_kept = refl;
                          size_kept = length-assign s.leader (env.clock s.reads) s.peers;
                        })
                        m))
            ])
          ])
        ]

    pub handle_messages_from_peer-Moves :
        (Yes : Type 0) (s : Instance M) (message : Message) (a : Address)
        → (YesVote s.version message → Yes)
        → Ends (Moves Yes s) (handle_messages_from_peer env s message a)
    unfolding handle_messages_from_peer
    handle_messages_from_peer-Moves Yes s message a given = elim (Bool-cases (same s.leader a)) [
      | inl led ↦ rw led tt
      | inr other ↦ rw other (elim (Bool-cases (check_outdated s message)) [
        | inl old ↦ rw old (Move.stay refl)
        | inr current ↦ rw current (
            Ends->>= (Kept s) (Moves Yes s) (greet env s message a) _ (greet-Kept env s message a)
              (λ t k.
                Ends-map (Moves Yes t) (Moves Yes s) _
                  (switch_from_peer-Moves Yes t message a message.kind
                    (λ _ v ch. given (v, ch, in_time s message v current)))
                  (λ u m. Moves-before s t u k m)))
      ])
    ]
