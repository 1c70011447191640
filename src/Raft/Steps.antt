-- ===== src/Raft/Steps.antt =====
-- Each step of an instance of Distributed/raft is one move of the abstract node (Raft/Spec).
use tiny_backend.Prelude.{◌+◌, ◌≡◌, ◌≢◌, refl, ltb, Bool-cases, inl, inr}
use tiny_backend.Raft.Message.{no_address, same}
use tiny_backend.Raft.Instance.{State, is_leader, Instance, Environment}
use tiny_backend.Raft.Transmitter.{Datagram, receive}
use tiny_backend.Raft.Agent.{now, read}
use tiny_backend.Raft.Handlers.{
  handle_leader_timeout, handle_candidate_timeout, handle_follower_timeout,
}
use tiny_backend.Raft.Loops.{
  leader_sent_timeout, leader_receive, leader_check_timeout, leader_thread_loop,
  candidate_thread_loop, follower_thread_loop, turn_in, thread_turn, synchronize_logs_to_followers,
  Event, turn, synchronize, step,
}
use tiny_backend.Raft.Frame.{Ends, Ends->>=, notify_all-Kept}
use tiny_backend.Raft.Spec.{control, Move, YesVote, Moves}
use tiny_backend.Raft.Refine.{vote_to_be_leader-Moves}
use tiny_backend.Raft.Switches.{
  Moves-after, handle_messages_from_follower-Moves, handle_messages_from_leader-Moves,
  handle_messages_from_peer-Moves,
}

-- The event brings a vote for the candidate.
abbrev pub IsYesVote : {M : Type 0} → Instance M → Event → Type 0
IsYesVote s (turn d) = YesVote s.version d.content
IsYesVote s synchronize = ⊥

module _ {M : Type 0} (env : Environment M) where
  leader_receive-Moves :
      (Yes : Type 0) (s : Instance M) (d : Datagram)
      → (YesVote s.version d.content → Yes)
      → Ends (Moves Yes s) (leader_receive env s d)
  unfolding leader_receive
  leader_receive-Moves Yes s d given = elim (Bool-cases (same (receive d) no_address)) [
    | inl silent ↦ rw silent (Move.stay refl)
    | inr heard ↦
        rw heard
          (handle_messages_from_follower-Moves env Yes (read env s) d.content (receive d) given)
  ]

  leader_check_timeout-control : (s : Instance M) → control (leader_check_timeout env s) ≡ control s
  unfolding leader_check_timeout handle_leader_timeout
  leader_check_timeout-control s =
      elim (Bool-cases (ltb (s.last_flush_time + leader_sent_timeout) (now env s))) [
        | inl late ↦ rw late (notify_all-Kept env s.peers (read env s)).control_kept
        | inr early ↦ rw early
      ]

  leader_thread_loop-Moves :
      (Yes : Type 0) (s : Instance M) (d : Datagram)
      → (YesVote s.version d.content → Yes)
      → Ends (Moves Yes s) (leader_thread_loop env s d)
  unfolding leader_thread_loop
  leader_thread_loop-Moves Yes s d given =
      Ends->>= (Moves Yes s) (Moves Yes s) (leader_receive env s d) _
        (leader_receive-Moves Yes s d given)
        (λ t m. Moves-after s t (leader_check_timeout env t) m (leader_check_timeout-control t))

  candidate_thread_loop-Moves :
      (Yes : Type 0) (s : Instance M) (d : Datagram)
      → (YesVote s.version d.content → Yes)
      → s.state ≢ State.leader
      → Ends (Moves Yes s) (candidate_thread_loop env s d)
  unfolding candidate_thread_loop handle_candidate_timeout
  candidate_thread_loop-Moves Yes s d given h = elim (Bool-cases (same (receive d) no_address)) [
    | inl silent ↦ rw silent (vote_to_be_leader-Moves env (read env s) h)
    | inr heard ↦
        rw heard (handle_messages_from_peer-Moves env Yes (read env s) d.content (receive d) given)
  ]

  follower_thread_loop-Moves :
      (Yes : Type 0) (s : Instance M) (d : Datagram)
      → (YesVote s.version d.content → Yes)
      → s.state ≢ State.leader
      → Ends (Moves Yes s) (follower_thread_loop env s d)
  unfolding follower_thread_loop handle_follower_timeout
  follower_thread_loop-Moves Yes s d given h = elim (Bool-cases (same (receive d) no_address)) [
    | inl silent ↦ rw silent (vote_to_be_leader-Moves env (read env s) h)
    | inr heard ↦ rw heard (elim (Bool-cases (same (receive d) s.leader)) [
      | inl led ↦ rw led (handle_messages_from_leader-Moves env Yes (read env s) d.content)
      | inr other ↦
          rw other
            (handle_messages_from_peer-Moves env Yes (read env s) d.content (receive d) given)
    ])
  ]

  turn_in-Moves :
      (Yes : Type 0) (s : Instance M) (d : Datagram) (state : State)
      → (YesVote s.version d.content → Yes)
      → s.state ≡ state
      → Ends (Moves Yes s) (turn_in env s d state)
  unfolding turn_in
  turn_in-Moves Yes s d State.leader given e = leader_thread_loop-Moves Yes s d given
  turn_in-Moves Yes s d State.candidate given e =
      candidate_thread_loop-Moves Yes s d given (λ l. cc)
  turn_in-Moves Yes s d State.follower given e = follower_thread_loop-Moves Yes s d given (λ l. cc)

  -- Every step of a running instance, a turn of its thread with any datagram or a call to
  -- synchronise, that does not end in an exit or at an assertion is one move of the abstract node
  -- of `Spec`, with the majority of the instance and its peers as quorum. It counts a vote or elects
  -- only in a turn whose datagram is a yes vote and of no older version.
  pub step-Moves : (s : Instance M) (e : Event) → Ends (Moves (IsYesVote s e) s) (step env s e)
  unfolding step thread_turn synchronize_logs_to_followers
  step-Moves s (turn d) = turn_in-Moves (IsYesVote s (turn d)) s d s.state (λ y. y) refl
  step-Moves s synchronize = elim (Bool-cases (is_leader s.state)) [
    | inl leads ↦ rw leads (
        Move.stay
          (notify_all-Kept env s.peers
            (record s { machine = env.update_log s.machine })).control_kept)
    | inr other ↦ rw other (Move.stay refl)
  ]
