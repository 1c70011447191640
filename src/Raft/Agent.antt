-- ===== src/Raft/Agent.antt =====
-- Distributed/raft/src/RaftAgent.cpp: the handlers of an instance. Logging is left out.
use tiny_backend.Prelude.{
  ℕ, ◌+◌, ◌/◌, Bool, true, false, not, ◌&&◌, ◌||◌, none, some, [], ◌∷◌, length, leb, ◌==◌,
  if◌then◌else◌,
}
use tiny_backend.Version.{increment32, lt32, gt32}
use tiny_backend.Raft.Message.{Address, no_address, is_valid, same, MessageType, Message}
use tiny_backend.Raft.Instance.{
  State, is_leader, is_candidate, is_follower, Peers, find, contains, assign, erase, Instance,
  Environment, Outcome, running, exited, ◌>>=◌, ◌>>◌, assert,
}
use tiny_backend.Raft.Transmitter.{
  notify_follower, respond_leader, request_vote, send_vote, request_logs, affirm_online,
  affirm_offline,
}

-- Online and Offline.
abbrev pub is_membership : MessageType → Bool
is_membership kind = elim kind [
  | MessageType.online ↦ true
  | MessageType.offline ↦ true
  | _ ↦ false
]

-- A `const Address&`: to a value of the caller, or to the field `_leader` of the instance.
pub data Reference : Type 0 where
  plain : Address → Reference
  leader_field : Reference

module _ {M : Type 0} where
  abbrev pub at : Instance M → Reference → Address
  at s (plain a) = a
  at s leader_field = s.leader

  -- The number of votes that elects.
  abbrev pub majority : Instance M → ℕ
  majority s = (length s.peers + 1) / 2 + 1

  unfoldable pub check_outdated : Instance M → Message → Bool
  check_outdated s message = lt32 message.version s.version && not (is_membership message.kind)

  -- The test under which `assert_split_brain` exits.
  unfoldable pub assert_split_brain : Instance M → Message → Bool
  assert_split_brain s message =
      lt32 message.version s.version || (message.version == s.version && is_leader s.state)

module _ {M : Type 0} (env : Environment M) where
  -- `Unix_to_now()`, and the state after it.
  abbrev pub now : Instance M → ℕ
  now s = env.clock s.reads

  abbrev pub read : Instance M → Instance M
  read s = record s { reads = s.reads + 1 }

  unfoldable pub become_candidate : Instance M → Instance M
  become_candidate s = record s {
    state = State.candidate;
    leader = no_address;
    last_flush_time = now s;
    version = increment32 s.version;
    votes = 1;
    reads = s.reads + 1;
  }

  unfoldable pub become_leader : Instance M → Instance M
  become_leader s = record s {
    state = State.leader;
    leader = no_address;
    last_flush_time = now s;
    votes = 0;
    reads = s.reads + 1;
  }

  unfoldable pub change_leader_to : Instance M → Message → Address → Outcome (Instance M)
  change_leader_to s message address =
      if assert_split_brain s message
      then exited
      else running (record s {
        state = State.follower;
        leader = address;
        version = message.version;
        last_flush_time = if is_valid address then now s else s.last_flush_time;
        votes = 0;
        reads = if is_valid address then s.reads + 1 else s.reads;
      })

  unfoldable pub respond_leader_check : Instance M → Message → Outcome (Instance M)
  respond_leader_check s message = do
    assert (is_follower s.state)
    let (choose, machine) = env.need_synchronize_from s.machine s.leader message
    let checked = record s { version = message.version; machine = machine }
    let (extra_data, machine') = env.ready_to_receiving machine s.leader message
    running (
        if choose
        then request_logs env s.leader extra_data (record checked { machine = machine' })
        else respond_leader env s.leader checked)

  -- A loop that notifies each peer as its leader.
  unfoldable pub notify_all : Peers → Instance M → Instance M
  notify_all [] s = s
  notify_all ((address, _) ∷ peers) s =
      let (bytes, machine) = env.leader_notify_message s.machine address in
      notify_all peers (notify_follower env address bytes (record s { machine = machine }))

  -- A loop that asks each peer for its vote.
  unfoldable pub request_votes : Peers → Instance M → Instance M
  request_votes [] s = s
  request_votes ((address, _) ∷ peers) s = request_votes peers (request_vote env address s)

  unfoldable pub vote_to_be_leader : Instance M → Instance M
  vote_to_be_leader s = let s' = become_candidate s in request_votes s'.peers s'

  -- `address` is read again after the leader has changed.
  unfoldable pub vote_to : Instance M → Message → Reference → Outcome (Instance M)
  vote_to s message address =
      if gt32 message.version s.version
      then (let (can_be_leader, machine) = env.can_be_leader s.machine (at s address) message in
          let asked = record s { machine = machine } in
          if can_be_leader
          then (do
            s' ← change_leader_to asked message (at asked address)
            running (send_vote env (at s' address) true s'))
          else (do
            s' ← change_leader_to asked message no_address
            running (send_vote env (at s' address) false s')))
      else running (send_vote env (at s address) false s)

  unfoldable pub accept_vote : Instance M → Message → Instance M
  accept_vote s message =
      if not (is_candidate s.state) || not message.choose
      then s
      else (let counted = record s { votes = s.votes + 1 } in
          if leb (majority s) counted.votes
          then (let elected = become_leader counted in notify_all elected.peers elected)
          else counted)

  unfoldable pub synchronize_logs : Instance M → Message → Address → Instance M
  synchronize_logs s message address = record s {
    machine = env.ready_to_send_to s.machine address message;
  }

  unfoldable pub new_one_online : Instance M → Address → Instance M
  new_one_online s address =
      let emplaced = record s {
        peers = if contains address s.peers then s.peers else (address, now s) ∷ s.peers;
        reads = s.reads + 1;
      } in
      let (bytes, machine) = env.leader_notify_message emplaced.machine address in
      if is_leader emplaced.state
      then notify_follower env address bytes (record emplaced { machine = machine })
      else affirm_online env address emplaced

  unfoldable pub peer_offline : Instance M → Address → Instance M
  peer_offline s address =
      let s' = affirm_offline env address (record s { peers = erase address s.peers }) in
      if same address s'.leader then record s' { leader = no_address } else s'

  -- `accept_online_ack` and `accept_offline_ack` differ only in what they log.
  unfoldable pub accept_ack : Instance M → Address → Bool × Instance M
  accept_ack s address = elim (find address s.peers) [
    | none ↦ (false, s)
    | some time ↦
        if time == 0 then (false, s) else (true, record s { peers = assign address 0 s.peers })
  ]

  -- The first lines of the handlers: the time of a known sender is taken, and only a message of
  -- membership may come from an unknown one.
  unfoldable pub greet : Instance M → Message → Address → Outcome (Instance M)
  greet s message address =
      if contains address s.peers
      then running (record s { peers = assign address (now s) s.peers; reads = s.reads + 1 })
      else (do assert (is_membership message.kind); running s)
