-- ===== src/Raft/Transmitter.antt =====
-- Distributed/raft/src/RaftTransmitter.cpp: each call builds one message and hands it to the socket.
-- The result of `sendto` is only logged, so a message counts as handed over whether or not it is
-- delivered.
use tiny_backend.Prelude.{ℕ, ◌+◌, Bool, List, ◌∷◌, if◌then◌else◌, ◌==◌}
use tiny_backend.Version.{increment64}
use tiny_backend.Raft.Message.{Address, no_address, MessageType, Message, fresh, add_extra_message}
use tiny_backend.Raft.Instance.{Instance, Environment}

module _ {M : Type 0} (env : Environment M) where
  -- The message that the macros MESSAGE_INIT and FILLING_PARAMETER fill in.
  abbrev pub stamp : MessageType → Instance M → Message
  stamp kind s = record fresh {
    kind = kind;
    version = s.version;
    serial_number = s.serial_number;
    time_of_departure = env.clock s.reads;
  }

  -- What filling in a message does to the sender.
  abbrev pub stamped : Instance M → Instance M
  stamped s = record s { serial_number = increment64 s.serial_number; reads = s.reads + 1 }

  abbrev pub sendto : Address → Message → Instance M → Instance M
  sendto to m s = record s { outbox = (to, m) ∷ s.outbox }

  abbrev pub send : MessageType → Address → Instance M → Instance M
  send kind to s = sendto to (stamp kind s) (stamped s)

  -- A message with extra bytes; nothing is sent if they do not fit.
  abbrev pub send_with : MessageType → Address → List ℕ → Instance M → Instance M
  send_with kind to bytes s =
      let (fits, m) = add_extra_message (stamp kind s) bytes in
      if fits then sendto to m (stamped s) else stamped s

  unfoldable pub notify_follower : Address → List ℕ → Instance M → Instance M
  notify_follower to bytes s = send_with MessageType.leader_check to bytes s

  unfoldable pub respond_leader : Address → Instance M → Instance M
  respond_leader to s = send MessageType.follower_ack to s

  unfoldable pub request_vote : Address → Instance M → Instance M
  request_vote to s = send MessageType.ask_for_vote to s

  unfoldable pub send_vote : Address → Bool → Instance M → Instance M
  send_vote to result s =
      sendto to (record (stamp MessageType.vote s) { choose = result }) (stamped s)

  unfoldable pub request_logs : Address → List ℕ → Instance M → Instance M
  request_logs to bytes s = send_with MessageType.request to bytes s

  unfoldable pub this_one_online : Address → Instance M → Instance M
  this_one_online to s = send MessageType.online to s

  unfoldable pub affirm_online : Address → Instance M → Instance M
  affirm_online to s = send MessageType.online_ack to s

  unfoldable pub this_one_offline : Address → Instance M → Instance M
  this_one_offline to s = send MessageType.offline to s

  unfoldable pub affirm_offline : Address → Instance M → Instance M
  affirm_offline to s = send MessageType.offline_ack to s

-- What the socket returns: the number of bytes, 0 for a failure, the sender, and the message that
-- was passed in with what the bytes made of it.
pub record Datagram : Type 0 where
  pub len : ℕ
  pub sender : Address
  pub content : Message

-- sizeof(RaftMessage).
abbrev pub message_size : ℕ
message_size = 64

-- The address that `receive` returns.
abbrev pub receive : Datagram → Address
receive d = if d.len == message_size then d.sender else no_address
