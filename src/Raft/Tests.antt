-- ===== src/Raft/Tests.antt =====
-- Tests of Distributed/raft, and its theorems at concrete instances.
use mathlib.Core.List.{reverse}
use tiny_backend.Prelude.{
  ℕ, ◌+◌, ◌≤◌, ◌≡◌, ◌≢◌, refl, Bool, true, false, ◌&&◌, List, [], ◌∷◌, ◌++◌, map, length, take,
  drop, arith, ◌^◌, ◌<◌, ◌*◌, if◌then◌else◌, ◌==◌,
}
use tiny_backend.Version.{lt, gt, increment, lt32, gt32}
use tiny_backend.Raft.Message.{
  Address, no_address, MessageType, Message, fresh, extra_capacity, copy_bytes, add_extra_message,
}
use tiny_backend.Raft.Instance.{State, Instance, Environment, Outcome, aborted, initial}
use tiny_backend.Raft.Transmitter.{
  message_size, notify_follower, respond_leader, request_vote, send_vote, request_logs,
  affirm_online, affirm_offline,
}
use tiny_backend.Raft.Agent.{
  plain, check_outdated, assert_split_brain, become_candidate, become_leader, change_leader_to,
  respond_leader_check, notify_all, request_votes, vote_to_be_leader, vote_to, accept_vote,
  synchronize_logs, new_one_online, peer_offline, greet,
}
use tiny_backend.Raft.Handlers.{
  rival_check, switch_from_follower, handle_messages_from_follower, switch_from_leader,
  handle_messages_from_leader, switch_from_peer, handle_messages_from_peer, handle_leader_timeout,
  handle_candidate_timeout, handle_follower_timeout,
}
use tiny_backend.Raft.Loops.{
  leader_receive, leader_check_timeout, leader_thread_loop, candidate_thread_loop,
  follower_thread_loop, turn_in, thread_turn, synchronize_logs_to_followers, Event, turn,
  synchronize, step, run, set_up,
}
use tiny_backend.Raft.Frame.{Ends, Returns}
use tiny_backend.Raft.Spec.{granted, control, Moves}
use tiny_backend.Raft.Steps.{IsYesVote, step-Moves}
use tiny_backend.Raft.Promises.{IsPromised, stood_after}
use tiny_backend.Raft.Safety.{IsSound, step-version, step-elects, step-IsPromised, run-IsSound}
use tiny_backend.Raft.Votes.{Voted, vote_to-Voted, leader_refusal_lost}
use tiny_backend.Raft.Extra.{add_extra_message_lem, heartbeat-outbox}

program : Unit {0}
unfolding lt gt increment copy_bytes add_extra_message notify_follower respond_leader request_vote
    send_vote request_logs affirm_online affirm_offline check_outdated assert_split_brain
    become_candidate become_leader change_leader_to respond_leader_check notify_all request_votes
    vote_to_be_leader vote_to accept_vote synchronize_logs new_one_online peer_offline greet
    rival_check switch_from_follower handle_messages_from_follower switch_from_leader
    handle_messages_from_leader switch_from_peer handle_messages_from_peer handle_leader_timeout
    handle_candidate_timeout handle_follower_timeout leader_receive leader_check_timeout
    leader_thread_loop candidate_thread_loop follower_thread_loop turn_in thread_turn
    synchronize_logs_to_followers step run granted
program = tt

abbrev node : ℕ → Address
node n = record { family = 2; port = 8000; host = n }

-- A cluster of this node, 1 and 2, whose machine lets anyone but 2 lead. The clock stands still.
abbrev world : Environment ℕ
world = record {
  clock = λ n. 5;
  can_be_leader = λ machine a m. (if a.host == 2 then false else true, machine);
  leader_notify_message = λ machine a. (7 ∷ [], machine);
  need_synchronize_from = λ machine a m. (false, machine);
  ready_to_receiving = λ machine a m. ([], machine);
  ready_to_send_to = λ machine a m. machine;
  update_log = λ machine. machine + 1;
}

abbrev start : Instance ℕ
start = record (initial world 0) { peers = (node 1, 3) ∷ (node 2, 4) ∷ [] }

abbrev letter : MessageType → Bool → ℕ → Message
letter kind choose version = record fresh { kind = kind; choose = choose; version = version }

abbrev from : ℕ → Message → Event
from n m = turn (record { len = message_size; sender = node n; content = m })

-- A receive that times out.
abbrev silence : Event
silence = turn (record { len = 0; sender = no_address; content = fresh })

-- A timeout, then a vote of one peer: two of three elect.
abbrev elected : Outcome (Instance ℕ)
elected = run world start (silence ∷ from 2 (letter MessageType.vote true 1) ∷ [])

leads : Returns (λ s. (s.state ≡ State.leader) × (s.version ≡ 1) × (length s.outbox ≡ 4)) elected
unfolding program
leads = (refl, refl, refl)

-- An unknown sender ends the process, unless it comes or goes.
stranger :
    (run world start (from 9 (letter MessageType.vote true 1) ∷ []) ≡ aborted)
    × Returns
        (λ s. length s.peers ≡ 3)
        (run world start (from 9 (letter MessageType.online false 0) ∷ []))
unfolding program
stranger = (refl, refl)

abbrev standing : Instance ℕ
standing = record start { state = State.candidate; version = 1; votes = 1 }

abbrev yes_vote : Event
yes_vote = from 2 (letter MessageType.vote true 1)

step-Moves_example :
    Ends (Moves (IsYesVote standing yes_vote) standing) (step world standing yes_vote)
step-Moves_example = step-Moves world standing yes_vote

step-version_example :
    Ends (λ s'. lt32 s'.version standing.version ≡ false) (step world standing yes_vote)
step-version_example = step-version world standing yes_vote (omega arith)

step-elects_example :
    Ends
      (λ s'.
        s'.state ≡ State.leader
        → standing.state ≢ State.leader
        → IsYesVote standing yes_vote
          × (standing.state ≡ State.candidate)
          × (length standing.peers + 1 < (standing.votes + 1) * 2)
          × (s'.version ≡ standing.version))
      (step world standing yes_vote)
step-elects_example = step-elects world standing yes_vote

-- The node stood in version 1, in which it gave no vote.
step-IsPromised_example :
    Ends
      (λ s'. s'.version < 2 ^ 31 → IsPromised (stood_after (control s') (1 ∷ [])) (control s'))
      (step world standing yes_vote)
unfolding granted
step-IsPromised_example =
    step-IsPromised world standing yes_vote (1 ∷ []) (omega arith)
      (record { once = tt; own = λ _. tt; apart = (omega arith, tt, tt) })

run-IsSound_example :
    Ends
      (λ s'. IsSound (control s'))
      (run world
        (set_up world (initial world 0) (node 1 ∷ node 2 ∷ []))
        (silence ∷ synchronize ∷ []))
run-IsSound_example = run-IsSound world 0 (node 1 ∷ node 2 ∷ []) (silence ∷ synchronize ∷ [])

abbrev request : ℕ → Message
request v = letter MessageType.ask_for_vote false v

vote_to-Voted_example :
    Ends
      (Voted
        (node 1)
        (gt32 (request 4).version start.version
          && (world.can_be_leader start.machine (node 1) (request 4)).0)
        start.outbox)
      (vote_to world start (request 4) (plain (node 1)))
vote_to-Voted_example = vote_to-Voted world start (request 4) (node 1)

-- A follower of 2, which may not lead.
abbrev led : Instance ℕ
led = record start { leader = node 2; version = 3 }

leader_refusal_lost_example :
    Returns (Voted no_address false led.outbox) (handle_messages_from_leader world led (request 4))
unfolding lt gt
leader_refusal_lost_example =
    leader_refusal_lost world led (request 4) (λ e. cc) refl refl refl refl refl

abbrev bytes : List ℕ
bytes = 1 ∷ 2 ∷ []

add_extra_message_lem_example :
    (extra_capacity < fresh.extra_data_size + length bytes
      → add_extra_message fresh bytes ≡ (false, fresh))
    × (fresh.extra_data_size + length bytes ≤ extra_capacity
        → let (fits, m') = add_extra_message fresh bytes in
          (fits ≡ true)
          × (m'.extra_data
              ≡ take fresh.extra_data_size fresh.extra_data
                ++ (bytes ++ drop (fresh.extra_data_size + length bytes) fresh.extra_data))
          × (m'.extra_data_size ≡ fresh.extra_data_size + length bytes))
add_extra_message_lem_example = add_extra_message_lem fresh bytes refl (omega arith)

heartbeat-outbox_example :
    map (λ e. e.0) (handle_leader_timeout world start).outbox
    ≡ reverse (map (λ p. p.0) start.peers) ++ map (λ e. e.0) start.outbox
heartbeat-outbox_example = heartbeat-outbox world (λ machine a. omega arith) start
