-- ===== src/Raft/Safety.antt =====
-- What holds of every step and every run of an instance of Distributed/raft, from the moves of its
-- abstract node.
use mathlib.Core.Path.{subst}
use tiny_backend.Prelude.{
  ℕ, ◌+◌, ◌*◌, ◌^◌, length, ◌≤◌, ◌<◌, ◌≡◌, ◌≢◌, refl, sym, ap, false, List, [], ◌∷◌, arith,
}
use tiny_backend.Version.{lt32}
use tiny_backend.Version.Order.{not-lt_self, not-lt-increment}
use tiny_backend.Raft.Message.{Address, no_address}
use tiny_backend.Raft.Instance.{State, Instance, Environment, initial}
use tiny_backend.Raft.Loops.{add_peer, start, set_up, Event, step, run}
use tiny_backend.Raft.Frame.{Ends, Ends->>=, Ends-map}
use tiny_backend.Raft.Spec.{Control, control, Move, Moves}
use tiny_backend.Raft.Steps.{IsYesVote, step-Moves}
use tiny_backend.Raft.Promises.{IsPromised, stood_after, Move-IsPromised}

Move-version :
    {q : ℕ} {Yes : Type 0} {c c' : Control}
    → c.version < 2 ^ 32
    → Move q Yes c c'
    → lt32 c'.version c.version ≡ false
Move-version {c = c} h (Move.stay e) = rw e (not-lt_self c.version)
Move-version {c = c} h (Move.campaign _ e) = rw e (not-lt-increment c.version h)
Move-version {c = c} h (Move.count _ _ _ e) = rw e (not-lt_self c.version)
Move-version {c = c} h (Move.elect _ _ _ e) = rw e (not-lt_self c.version)
Move-version h (Move.follow a v n _ e) = rw e n
Move-version h (Move.grant a v g n e) = rw e n
Move-version h (Move.refresh v _ n e) = rw e n
Move-version {c = c} h (Move.lose e) = rw e (not-lt_self c.version)

Move-elects :
    {q : ℕ} {Yes : Type 0} {c c' : Control}
    → Move q Yes c c'
    → c'.state ≡ State.leader
    → c.state ≢ State.leader
    → Yes × (c.state ≡ State.candidate) × (q ≤ c.votes + 1) × (c'.version ≡ c.version)
Move-elects (Move.stay e) l n = absurd (n (rw e at l))
Move-elects (Move.campaign _ e) l n = cc
Move-elects (Move.count _ s _ e) l n = cc
Move-elects (Move.elect y s q e) l n = (y, s, q, ap (λ (x : Control). x.version) e)
Move-elects (Move.follow a v _ _ e) l n = cc
Move-elects (Move.grant a v g _ e) l n = cc
Move-elects (Move.refresh v s _ e) l n = cc
Move-elects (Move.lose e) l n = absurd (n (rw e at l))

-- What a node counts and whom it follows agree with its role.
pub record IsSound (c : Control) : Type 0 where
  pub leads : c.state ≡ State.leader → (c.votes ≡ 0) × (c.leader ≡ no_address)
  pub stands : c.state ≡ State.candidate → (0 < c.votes) × (c.leader ≡ no_address)
  pub follows : c.state ≡ State.follower → c.votes ≡ 0

Move-IsSound : {q : ℕ} {Yes : Type 0} {c c' : Control} → Move q Yes c c' → IsSound c → IsSound c'
Move-IsSound (Move.stay e) p = subst IsSound (sym e) p
Move-IsSound (Move.campaign _ e) p =
    subst IsSound (sym e)
      (record { leads = λ s. cc; stands = λ s. (omega arith, refl); follows = λ s. cc })
Move-IsSound {c = c} (Move.count _ s _ e) p =
    subst IsSound (sym e)
      (record { leads = λ l. cc; stands = λ _. (omega arith, (p.stands s).1); follows = λ f. cc })
Move-IsSound (Move.elect _ s _ e) p =
    subst IsSound (sym e)
      (record { leads = λ _. (refl, refl); stands = λ s. cc; follows = λ f. cc })
Move-IsSound (Move.follow a v _ _ e) p =
    subst IsSound (sym e) (record { leads = λ l. cc; stands = λ s. cc; follows = λ _. refl })
Move-IsSound (Move.grant a v g n e) p =
    subst IsSound (sym e) (record { leads = λ l. cc; stands = λ s. cc; follows = λ _. refl })
Move-IsSound {c = c} (Move.refresh v s n e) p =
    subst IsSound (sym e) (record { leads = p.leads; stands = p.stands; follows = p.follows })
Move-IsSound {c = c} (Move.lose e) p = subst IsSound (sym e) (record {
  leads = λ l. ((p.leads l).0, refl);
  stands = λ s. ((p.stands s).0, refl);
  follows = p.follows;
})

module _ {M : Type 0} (env : Environment M) where
  -- A step never takes an instance whose version is a uint32 to an older version: the new version
  -- is not below the old one in the window order.
  pub step-version :
      (s : Instance M) (e : Event)
      → s.version < 2 ^ 32
      → Ends (λ s'. lt32 s'.version s.version ≡ false) (step env s e)
  step-version s e h =
      Ends-map (Moves (IsYesVote s e) s) _ (step env s e) (step-Moves env s e)
        (λ s' m. Move-version h m)

  -- An instance becomes leader only in a turn that brings it a yes vote which is of no older version,
  -- only if it was a candidate, and only if the votes that it had and this one are more than half of
  -- the cluster of its peers and itself. It leads the version that it stood for.
  pub step-elects :
      (s : Instance M) (e : Event)
      → Ends
          (λ s'.
            s'.state ≡ State.leader
            → s.state ≢ State.leader
            → IsYesVote s e
              × (s.state ≡ State.candidate)
              × (length s.peers + 1 < (s.votes + 1) * 2)
              × (s'.version ≡ s.version))
          (step env s e)
  step-elects s e =
      Ends-map (Moves (IsYesVote s e) s) _ (step env s e) (step-Moves env s e) (λ s' m l n.
        let (given, stood, enough, same) = Move-elects m l n in
        (given, stood, omega (arith, enough), same))

  -- In a step that stays below half of the range of the versions, an instance keeps its promise: each
  -- version in which it gave a vote is below the one before, none is above its own version, and in
  -- none of the versions in which it ever stood for election or led has it given a vote, nor does it
  -- give one in such a version later. `stood` are those versions up to the step, and the version in
  -- which the step leaves it a candidate or a leader joins them.
  pub step-IsPromised :
      (s : Instance M) (e : Event) (stood : List ℕ)
      → s.version < 2 ^ 31
      → IsPromised stood (control s)
      → Ends
          (λ s'. s'.version < 2 ^ 31 → IsPromised (stood_after (control s') stood) (control s'))
          (step env s e)
  step-IsPromised s e stood h p =
      Ends-map (Moves (IsYesVote s e) s) _ (step env s e) (step-Moves env s e)
        (λ s' m h'. Move-IsPromised stood m h h' p)

  run_from-IsSound :
      (s : Instance M) (events : List Event)
      → IsSound (control s)
      → Ends (λ s'. IsSound (control s')) (run env s events)
  unfolding run
  run_from-IsSound s [] p = p
  run_from-IsSound s (e ∷ events) p =
      Ends->>= (Moves (IsYesVote s e) s) _ (step env s e) _ (step-Moves env s e)
        (λ t m. run_from-IsSound t events (Move-IsSound m p))

  set_up-control :
      (s : Instance M) (peers : List Address)
      → control (set_up env s peers) ≡ record (control s) { state = State.follower }
  unfolding set_up start add_peer
  set_up-control s [] = refl
  set_up-control s (a ∷ peers) = set_up-control (add_peer env s a) peers

  -- An instance is made, peers are added to it, and it is started. Whatever the datagrams that its
  -- thread gets and the calls to synchronise from then on, but for a stop and for joining and leaving
  -- a cluster: a leader and a candidate follow nobody, a candidate has at least its own vote, and a
  -- leader and a follower count none.
  pub run-IsSound :
      (machine : M) (peers : List Address) (events : List Event)
      → Ends (λ s'. IsSound (control s')) (run env (set_up env (initial env machine) peers) events)
  run-IsSound machine peers events =
      run_from-IsSound (set_up env (initial env machine) peers) events (
        subst IsSound (sym (set_up-control (initial env machine) peers))
          (record { leads = λ l. cc; stands = λ s. cc; follows = λ _. refl }))
