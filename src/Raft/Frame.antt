-- ===== src/Raft/Frame.antt =====
-- What the actions of Distributed/raft/src/RaftAgent.cpp leave alone, and the rules for the ends of
-- a handler.
use tiny_backend.Prelude.{ℕ, ◌≡◌, refl, ◌∙◌, List, [], ◌∷◌, length, arith, Bool-cases, inl, inr}
use tiny_backend.Raft.Message.{Address, Message, add_extra_message}
use tiny_backend.Raft.Instance.{
  Peers, contains, assign, Instance, Environment, Outcome, running, exited, aborted, ◌>>=◌,
}
use tiny_backend.Raft.Transmitter.{notify_follower, request_vote}
use tiny_backend.Raft.Agent.{is_membership, notify_all, request_votes, greet}
use tiny_backend.Raft.Spec.{granted, control}

-- The postcondition of what runs on; an exit and a failed assertion leave no state.
abbrev pub Ends {ℓ κ} : {A : Type ℓ} → (A → Type κ) → Outcome A → Type κ
Ends P (running a) = P a
Ends P exited = Unit
Ends P aborted = Unit

-- The same, where running on is part of the claim.
abbrev pub Returns {ℓ} : {A : Type ℓ} → (A → Type 0) → Outcome A → Type 0
Returns P (running a) = P a
Returns P exited = ⊥
Returns P aborted = ⊥

pub Ends->>= {ℓ κ} :
    {A B : Type ℓ} (Q : A → Type κ) (P : B → Type κ) (m : Outcome A) (f : A → Outcome B)
    → Ends Q m
    → ((a : A) → Q a → Ends P (f a))
    → Ends P (m >>= f)
Ends->>= Q P (running a) f h k = k a h
Ends->>= Q P exited f h k = tt
Ends->>= Q P aborted f h k = tt

pub Returns->>= {ℓ} :
    {A B : Type ℓ} (Q : A → Type 0) (P : B → Type 0) (m : Outcome A) (f : A → Outcome B)
    → Returns Q m
    → ((a : A) → Q a → Returns P (f a))
    → Returns P (m >>= f)
Returns->>= Q P (running a) f h k = k a h
Returns->>= Q P exited f h k = absurd h
Returns->>= Q P aborted f h k = absurd h

pub Ends-map {ℓ κ} :
    {A : Type ℓ} (Q P : A → Type κ) (m : Outcome A) → Ends Q m → ((a : A) → Q a → P a) → Ends P m
Ends-map Q P (running a) h k = k a h
Ends-map Q P exited h k = tt
Ends-map Q P aborted h k = tt

pub length-assign : (a : Address) (t : ℕ) (peers : Peers) → length (assign a t peers) ≡ length peers
length-assign a t [] = refl
length-assign a t ((b, u) ∷ peers) = ground (arith, length-assign a t peers)

module _ {M : Type 0} where
  -- The node and the size of the cluster are as before.
  pub record Kept (s s' : Instance M) : Type 0 where
    pub control_kept : control s' ≡ control s
    pub size_kept : length s'.peers ≡ length s.peers

  module _ (env : Environment M) where
    pub notify_follower-Kept :
        (to : Address) (bytes : List ℕ) (s : Instance M) → Kept s (notify_follower env to bytes s)
    unfolding notify_follower granted add_extra_message
    notify_follower-Kept to bytes s = ground arith

    pub notify_all-Kept : (peers : Peers) (s : Instance M) → Kept s (notify_all env peers s)
    unfolding notify_all
    notify_all-Kept [] s = record { control_kept = refl; size_kept = refl }
    notify_all-Kept ((a, t) ∷ peers) s =
        let (bytes, machine) = env.leader_notify_message s.machine a in
        let told = record s { machine = machine } in
        let h = notify_follower-Kept a bytes told in
        let k = notify_all-Kept peers (notify_follower env a bytes told) in
        record {
          control_kept = k.control_kept ∙ h.control_kept;
          size_kept = k.size_kept ∙ h.size_kept;
        }

    pub request_votes-Kept : (peers : Peers) (s : Instance M) → Kept s (request_votes env peers s)
    unfolding request_votes request_vote granted
    request_votes-Kept [] s = record { control_kept = refl; size_kept = refl }
    request_votes-Kept ((a, t) ∷ peers) s =
        let h = request_votes-Kept peers (request_vote env a s) in
        record { control_kept = h.control_kept; size_kept = h.size_kept }

    pub greet-Kept :
        (s : Instance M) (message : Message) (a : Address) → Ends (Kept s) (greet env s message a)
    unfolding greet
    greet-Kept s message a = elim (Bool-cases (contains a s.peers)) [
      | inl known ↦
          rw known (record {
            control_kept = refl;
            size_kept = length-assign a (env.clock s.reads) s.peers;
          })
      | inr unknown ↦ rw unknown (elim (Bool-cases (is_membership message.kind)) [
        | inl joins ↦ rw joins (record { control_kept = refl; size_kept = refl })
        | inr other ↦ rw other tt
      ])
    ]
