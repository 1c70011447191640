-- ===== src/Raft/Handlers.antt =====
-- Distributed/raft/src/RaftAgent.cpp: what an instance does with a message, by the role that it has,
-- and when it has waited too long.
use tiny_backend.Prelude.{ℕ, ◌+◌, Bool, true, false, not, ◌&&◌, [], ◌∷◌, ◌==◌, if◌then◌else◌}
use tiny_backend.Version.{lt32}
use tiny_backend.Raft.Message.{Address, same, MessageType, Message}
use tiny_backend.Raft.Instance.{
  is_leader, Peers, contains, assign, Instance, Environment, Outcome, running, ◌>>=◌, ◌>>◌, assert,
}
use tiny_backend.Raft.Transmitter.{notify_follower, this_one_online, this_one_offline}
use tiny_backend.Raft.Agent.{
  plain, leader_field, check_outdated, now, change_leader_to, respond_leader_check, notify_all,
  vote_to_be_leader, vote_to, accept_vote, synchronize_logs, new_one_online, peer_offline,
  accept_ack, greet,
}

module _ {M : Type 0} (env : Environment M) where
  -- The case LeaderCheck of `handle_messages_from_follower`: a leader answers the check of an older
  -- one that may lead by its own, and gives way to any other.
  unfoldable pub rival_check : Instance M → Message → Address → Outcome (Instance M)
  rival_check s message address =
      let older = lt32 message.version s.version in
      let (can_be_leader, machine) = env.can_be_leader s.machine address message in
      let asked = record s { machine = machine } in
      let (bytes, machine') = env.leader_notify_message machine address in
      if older && can_be_leader
      then running (notify_follower env address bytes (record s { machine = machine' }))
      else (do
        s' ← change_leader_to env (if older then asked else s) message address
        respond_leader_check env s' message)

  unfoldable pub switch_from_follower :
      Instance M → Message → Address → MessageType → Outcome (Instance M)
  switch_from_follower s message address MessageType.follower_ack = running s
  switch_from_follower s message address MessageType.request =
      running (synchronize_logs env s message address)
  switch_from_follower s message address MessageType.ask_for_vote =
      vote_to env s message (plain address)
  switch_from_follower s message address MessageType.vote = running (accept_vote env s message)
  switch_from_follower s message address MessageType.online = running (new_one_online env s address)
  switch_from_follower s message address MessageType.offline = running (peer_offline env s address)
  switch_from_follower s message address MessageType.leader_check = rival_check s message address
  switch_from_follower s message address _ = running s

  unfoldable pub handle_messages_from_follower :
      Instance M → Message → Address → Outcome (Instance M)
  handle_messages_from_follower before message address = do
    assert (is_leader before.state)
    s ← greet env before message address
    switch_from_follower s message address message.kind

  -- The messages of the leader are handled by reference to the field that holds it.
  unfoldable pub switch_from_leader : Instance M → Message → MessageType → Outcome (Instance M)
  switch_from_leader s message MessageType.leader_check = respond_leader_check env s message
  switch_from_leader s message MessageType.ask_for_vote = vote_to env s message leader_field
  switch_from_leader s message MessageType.offline = running (peer_offline env s s.leader)
  switch_from_leader s message _ = running s

  unfoldable pub handle_messages_from_leader : Instance M → Message → Outcome (Instance M)
  handle_messages_from_leader before message = do
    assert (not (is_leader before.state))
    let heard = record before {
      peers = assign before.leader (now env before) before.peers;
      last_flush_time = now env before;
      reads = before.reads + 1;
    }
    if check_outdated before message then running before else (do
      assert (contains before.leader before.peers)
      switch_from_leader heard message message.kind)

  unfoldable pub switch_from_peer :
      Instance M → Message → Address → MessageType → Outcome (Instance M)
  switch_from_peer s message address MessageType.ask_for_vote =
      vote_to env s message (plain address)
  switch_from_peer s message address MessageType.vote = running (accept_vote env s message)
  switch_from_peer s message address MessageType.leader_check = do
    s' ← change_leader_to env s message address
    respond_leader_check env s' message
  switch_from_peer s message address MessageType.online = running (new_one_online env s address)
  switch_from_peer s message address MessageType.offline = running (peer_offline env s address)
  switch_from_peer s message address _ = running s

  unfoldable pub handle_messages_from_peer : Instance M → Message → Address → Outcome (Instance M)
  handle_messages_from_peer before message address = do
    assert (not (same before.leader address))
    if check_outdated before message then running before else (do
      s ← greet env before message address
      switch_from_peer s message address message.kind)

  unfoldable pub handle_leader_timeout : Instance M → Instance M
  handle_leader_timeout s =
      let s' = notify_all env s.peers s in
      record s' { last_flush_time = now env s'; reads = s'.reads + 1 }

  unfoldable pub handle_candidate_timeout : Instance M → Instance M
  handle_candidate_timeout s = vote_to_be_leader env s

  unfoldable pub handle_follower_timeout : Instance M → Instance M
  handle_follower_timeout s = vote_to_be_leader env s

  -- Whether the message confirms that this instance has joined.
  unfoldable pub handle_message_when_online :
      Instance M → Message → Address → Outcome (Bool × Instance M)
  handle_message_when_online s message address = elim message.kind [
    | MessageType.online_ack ↦ running (accept_ack env s address)
    | MessageType.leader_check ↦ (do
      s' ← change_leader_to env s message address
      s'' ← respond_leader_check env s' message
      running (false, s''))
    | MessageType.ask_for_vote ↦ (do
      s' ← vote_to env s message (plain address)
      running (false, s'))
    | MessageType.online ↦
        running (false, this_one_online env address (new_one_online env s address))
    | MessageType.offline ↦
        running (false, peer_offline env (this_one_online env address s) address)
    | _ ↦ running (false, s)
  ]

  -- Whether the message confirms that this instance has left.
  unfoldable pub handle_message_when_offline : Instance M → Message → Address → Bool × Instance M
  handle_message_when_offline s message address = elim message.kind [
    | MessageType.offline_ack ↦ accept_ack env s address
    | MessageType.online ↦ (false, new_one_online env (this_one_offline env address s) address)
    | MessageType.offline ↦ (false, this_one_offline env address (peer_offline env s address))
    | _ ↦ (false, s)
  ]

  -- The loop of `end_status_check`: a time that is still there is a missing acknowledgement.
  unfoldable pub settle : ℕ → Peers → Bool × Peers
  settle time [] = (true, [])
  settle time ((a, t) ∷ peers) =
      let (success, rest) = settle time peers in
      if t == 0 then (success, (a, time) ∷ rest) else (false, (a, t) ∷ rest)

  unfoldable pub end_status_check : Instance M → Bool × Instance M
  end_status_check s =
      let (success, peers) = settle (now env s) s.peers in
      (success, record s { peers = peers; reads = s.reads + 1 })
