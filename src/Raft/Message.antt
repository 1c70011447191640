-- ===== src/Raft/Message.antt =====
-- Distributed/raft/RaftMessage.hpp, the datagrams of a cluster, and the part of Net/InetAddress.hpp
-- that they are addressed by.
use tiny_backend.Prelude.{
  ℕ, ◌+◌, ◌-◌, ◌%◌, ◌^◌, Bool, true, false, ◌&&◌, List, [], ◌∷◌, length, set, replicate, ltb, ◌==◌,
  if◌then◌else◌,
}

-- An address: its family, port and the bytes of the host, read as a number. `InetAddress()` is all
-- zeros, and PF_UNSPEC is 0.
pub record Address : Type 0 where
  pub family : ℕ
  pub port : ℕ
  pub host : ℕ

abbrev pub no_address : Address
no_address = record { family = 0; port = 0; host = 0 }

abbrev pub is_valid : Address → Bool
is_valid a = if a.family == 0 then false else true

-- `operator==`. Which bytes of the host are compared depends on the family, and so does which
-- bytes `host` holds.
abbrev pub same : Address → Address → Bool
same left right = left.family == right.family && left.port == right.port && left.host == right.host

pub data MessageType : Type 0 where
  invalid leader_check follower_ack ask_for_vote vote request online online_ack offline :
      MessageType
  offline_ack : MessageType

pub record Message : Type 0 where
  pub kind : MessageType
  pub extra_data_size : ℕ
  pub choose : Bool
  pub version : ℕ
  pub serial_number : ℕ
  pub time_of_departure : ℕ
  pub extra_data : List ℕ

abbrev pub extra_capacity : ℕ
extra_capacity = 40

-- A message as its constructor leaves it.
abbrev pub fresh : Message
fresh = record {
  kind = invalid;
  extra_data_size = 0;
  choose = false;
  version = 0;
  serial_number = 0;
  time_of_departure = 0;
  extra_data = replicate extra_capacity 0;
}

-- The loop that copies `size` bytes to `dest`.
unfoldable pub copy_bytes : List ℕ → ℕ → List ℕ → List ℕ
copy_bytes dest at [] = dest
copy_bytes dest at (b ∷ bytes) = copy_bytes (set dest at b) (at + 1) bytes

-- `add_extra_message`. The room left is a `size_t`, and the size a byte.
unfoldable pub add_extra_message : Message → List ℕ → Bool × Message
add_extra_message m bytes =
    if ltb ((extra_capacity + 2 ^ 64 - m.extra_data_size) % 2 ^ 64) (length bytes)
    then (false, m)
    else (
      true,
      record m {
        extra_data = copy_bytes m.extra_data m.extra_data_size bytes;
        extra_data_size = (m.extra_data_size + length bytes) % 256;
      },
    )
