-- ===== src/Raft/Loops.antt =====
-- Distributed/raft/src/RaftInstance.cpp: one turn of the working thread in each role, and the call
-- that synchronises the followers. Both hold the mutex of the instance, so a run of an instance is
-- a sequence of such steps.
use tiny_backend.Prelude.{ℕ, ◌+◌, ◌*◌, ◌/◌, ◌%◌, List, [], ◌∷◌, ltb, if◌then◌else◌}
use tiny_backend.Raft.Message.{Address, no_address, same}
use tiny_backend.Raft.Instance.{
  contains, State, is_leader, Instance, Environment, Outcome, running, ◌>>=◌,
}
use tiny_backend.Raft.Transmitter.{Datagram, receive}
use tiny_backend.Raft.Agent.{now, read, notify_all}
use tiny_backend.Raft.Handlers.{
  handle_messages_from_follower, handle_messages_from_leader, handle_messages_from_peer,
  handle_leader_timeout, handle_candidate_timeout, handle_follower_timeout,
}

-- LEADER_SENT_TIMEOUT and FOLLOWER_RECEIVE_TIMEOUT, in nanoseconds.
abbrev pub leader_sent_timeout : ℕ
leader_sent_timeout = 1_000_000_000

abbrev pub follower_timeout : ℕ
follower_timeout = 3_000_000_000

module _ {M : Type 0} where
  -- The moment up to which a follower waits, spread by the last time that it heard of the leader.
  unfoldable pub follower_receive_timeout : Instance M → ℕ
  follower_receive_timeout s =
      s.last_flush_time + follower_timeout / 100 * (s.last_flush_time % 25 + 76)

module _ {M : Type 0} (env : Environment M) where
  -- `receive` reads the clock once, for the time that is left to wait.
  unfoldable pub leader_receive : Instance M → Datagram → Outcome (Instance M)
  leader_receive s d =
      let address = receive d in
      if same address no_address
      then running (read env s)
      else handle_messages_from_follower env (read env s) d.content address

  unfoldable pub leader_check_timeout : Instance M → Instance M
  leader_check_timeout s =
      if ltb (s.last_flush_time + leader_sent_timeout) (now env s)
      then handle_leader_timeout env (read env s)
      else read env s

  unfoldable pub leader_thread_loop : Instance M → Datagram → Outcome (Instance M)
  leader_thread_loop s d = do s' ← leader_receive s d; running (leader_check_timeout s')

  unfoldable pub candidate_thread_loop : Instance M → Datagram → Outcome (Instance M)
  candidate_thread_loop s d =
      let address = receive d in
      if same address no_address
      then running (handle_candidate_timeout env (read env s))
      else handle_messages_from_peer env (read env s) d.content address

  unfoldable pub follower_thread_loop : Instance M → Datagram → Outcome (Instance M)
  follower_thread_loop s d =
      let address = receive d in
      if same address no_address
      then running (handle_follower_timeout env (read env s))
      else (if same address s.leader
          then handle_messages_from_leader env (read env s) d.content
          else handle_messages_from_peer env (read env s) d.content address)

  unfoldable pub turn_in : Instance M → Datagram → State → Outcome (Instance M)
  turn_in s d State.leader = leader_thread_loop s d
  turn_in s d State.candidate = candidate_thread_loop s d
  turn_in s d State.follower = follower_thread_loop s d

  -- A turn of the loop of `start`.
  unfoldable pub thread_turn : Instance M → Datagram → Outcome (Instance M)
  thread_turn s d = turn_in s d s.state

  -- The calls before the thread runs: another peer, and the state that the thread starts in.
  unfoldable pub add_peer : Instance M → Address → Instance M
  add_peer s address = record s {
    peers = if contains address s.peers then s.peers else (address, now env s) ∷ s.peers;
    reads = s.reads + 1;
  }

  unfoldable pub start : Instance M → Instance M
  start s = record s { state = State.follower }

  -- The way to a running instance: peers are added, then the thread starts.
  unfoldable pub set_up : Instance M → List Address → Instance M
  set_up s [] = start s
  set_up s (address ∷ peers) = set_up (add_peer s address) peers

  unfoldable pub synchronize_logs_to_followers : Instance M → Instance M
  synchronize_logs_to_followers s =
      if is_leader s.state
      then (let s' = notify_all env s.peers (record s { machine = env.update_log s.machine }) in
          record s' { last_flush_time = now env s'; reads = s'.reads + 1 })
      else s

-- What happens to a running instance: a turn of its thread with what the socket gives it, or a call
-- from another thread.
pub data Event : Type 0 where
  turn : Datagram → Event
  synchronize : Event

module _ {M : Type 0} (env : Environment M) where
  unfoldable pub step : Instance M → Event → Outcome (Instance M)
  step s (turn d) = thread_turn env s d
  step s synchronize = running (synchronize_logs_to_followers env s)

  unfoldable pub run : Instance M → List Event → Outcome (Instance M)
  run s [] = running s
  run s (e ∷ events) = do s' ← step s e; run s' events
