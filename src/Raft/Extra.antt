-- ===== src/Raft/Extra.antt =====
-- The extra bytes of a message of Distributed/raft/RaftMessage.hpp, and the heartbeat that carries
-- them to every peer.
use mathlib.Core.List.{reverse, reverse-cons, append_assoc}
use native.Mathlib.Nat.{add-zero}
use tiny_backend.Prelude.{
  false, take-append-drop, ℕ, zero, suc, ◌+◌, ◌≤◌, ◌<◌, ◌≡◌, refl, ◌∙◌, ap, true, List, [], ◌∷◌,
  ◌++◌, map, length, set, take, drop, length-set, arith,
}
use tiny_backend.Raft.Message.{Address, Message, extra_capacity, copy_bytes, add_extra_message}
use tiny_backend.Raft.Instance.{Peers, Instance, Environment}
use tiny_backend.Raft.Transmitter.{notify_follower}
use tiny_backend.Raft.Agent.{notify_all}
use tiny_backend.Raft.Handlers.{handle_leader_timeout}

module _ {ℓ} {A : Type ℓ} where
  take-set :
      (xs : List A) (i : ℕ) (v : A)
      → i < length xs
      → take (suc i) (set xs i v) ≡ take i xs ++ v ∷ []
  take-set [] i v h = absurd (omega arith)
  take-set (x ∷ xs) zero v h = refl
  take-set (x ∷ xs) (suc i) v h = ap (◌∷◌ x) (take-set xs i v (omega arith))

  drop-set : (xs : List A) (i n : ℕ) (v : A) → i < n → drop n (set xs i v) ≡ drop n xs
  drop-set xs i zero v h = absurd (omega arith)
  drop-set [] i (suc n) v h = refl
  drop-set (x ∷ xs) zero (suc n) v h = refl
  drop-set (x ∷ xs) (suc i) (suc n) v h = drop-set xs i n v (omega arith)

copy_bytes-splice :
    (dest : List ℕ) (at : ℕ) (bytes : List ℕ)
    → at + length bytes ≤ length dest
    → copy_bytes dest at bytes ≡ take at dest ++ (bytes ++ drop (at + length bytes) dest)
unfolding copy_bytes
copy_bytes-splice dest at [] h = rw (add-zero, take-append-drop)
copy_bytes-splice dest at (b ∷ bytes) h =
    let n = at + suc (length bytes) in
    let e : at + 1 + length bytes ≡ n = omega arith in
    let e' : at + 1 ≡ suc at = omega arith in
    copy_bytes-splice (set dest at b) (at + 1) bytes (omega (arith, length-set dest at b))
    ∙ rw (e, e', take-set dest at b (omega arith), drop-set dest at n b (omega arith), append_assoc)

-- Extra bytes are taken exactly if they fit into what is left of the 40. Then they stand behind those
-- that were there, the rest of the array is as before, and the size grows by their number.
pub add_extra_message_lem :
    (m : Message) (bytes : List ℕ)
    → length m.extra_data ≡ extra_capacity
    → m.extra_data_size ≤ extra_capacity
    → (extra_capacity < m.extra_data_size + length bytes → add_extra_message m bytes ≡ (false, m))
      × (m.extra_data_size + length bytes ≤ extra_capacity
          → let (fits, m') = add_extra_message m bytes in
            (fits ≡ true)
            × (m'.extra_data
                ≡ take m.extra_data_size m.extra_data
                  ++ (bytes ++ drop (m.extra_data_size + length bytes) m.extra_data))
            × (m'.extra_data_size ≡ m.extra_data_size + length bytes))
unfolding add_extra_message
add_extra_message_lem m bytes e h = (
  λ over. ground arith,
  λ fits. ground (arith, copy_bytes-splice m.extra_data m.extra_data_size bytes),
)

module _ {M : Type 0} (env : Environment M) where
  notify_follower-outbox :
      (to : Address) (bytes : List ℕ) (s : Instance M)
      → length bytes ≤ extra_capacity
      → map (λ e. e.0) (notify_follower env to bytes s).outbox ≡ to ∷ map (λ e. e.0) s.outbox
  unfolding notify_follower add_extra_message
  notify_follower-outbox to bytes s h = ground arith

  notify_all-outbox :
      ((machine : M) (a : Address)
        → length (env.leader_notify_message machine a).0 ≤ extra_capacity)
      → (peers : Peers) (s : Instance M)
      → map (λ e. e.0) (notify_all env peers s).outbox
        ≡ reverse (map (λ p. p.0) peers) ++ map (λ e. e.0) s.outbox
  unfolding notify_all
  notify_all-outbox fits [] s = refl
  notify_all-outbox fits ((a, t) ∷ peers) s =
      let (bytes, machine) = env.leader_notify_message s.machine a in
      let told = record s { machine = machine } in
      notify_all-outbox fits peers (notify_follower env a bytes told)
      ∙ rw (notify_follower-outbox a bytes told (fits s.machine a), reverse-cons, append_assoc)

  -- If the notices of the state machine fit into a message, the heartbeat of a leader hands exactly
  -- one message for each peer to the socket, in the order of the peers.
  pub heartbeat-outbox :
      ((machine : M) (a : Address)
        → length (env.leader_notify_message machine a).0 ≤ extra_capacity)
      → (s : Instance M)
      → map (λ e. e.0) (handle_leader_timeout env s).outbox
        ≡ reverse (map (λ p. p.0) s.peers) ++ map (λ e. e.0) s.outbox
  unfolding handle_leader_timeout
  heartbeat-outbox fits s = notify_all-outbox fits s.peers s
