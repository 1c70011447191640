-- ===== src/Raft/Promises.antt =====
-- The votes that an instance of Distributed/raft gives, and the versions in which it stands: what every
-- move of its abstract node keeps of them.
use mathlib.Core.Path.{subst}
use tiny_backend.Prelude.{
  ℕ, ◌+◌, ◌^◌, Bool-cases, if◌then◌else◌, ◌≤◌, ◌<◌, ◌≢◌, inl, inr, refl, sym, ap, List, [], ◌∷◌,
  arith,
}
use tiny_backend.Version.{increment32}
use tiny_backend.Version.Order.{lt_small}
use tiny_backend.Raft.Message.{no_address}
use tiny_backend.Raft.Instance.{State, is_follower}
use tiny_backend.Raft.Spec.{Control, Move}

-- The versions of a list fall, from below a bound.
abbrev pub Below : ℕ → List ℕ → Type 0
Below v [] = Unit
Below v (g ∷ gs) = (g < v) × Below g gs

Below-mono : {v w : ℕ} (gs : List ℕ) → v ≤ w → Below v gs → Below w gs
Below-mono [] h b = tt
Below-mono (g ∷ gs) h b = (omega arith, b.1)

-- No vote was given in the version.
abbrev pub NotIn : ℕ → List ℕ → Type 0
NotIn v [] = Unit
NotIn v (g ∷ gs) = (g ≢ v) × NotIn v gs

-- Versions up to a bound, in none of which a vote was given.
abbrev pub Apart : ℕ → List ℕ → List ℕ → Type 0
Apart bound [] gs = Unit
Apart bound (v ∷ vs) gs = (v ≤ bound) × NotIn v gs × Apart bound vs gs

-- `stood` are the versions in which the node asked for votes or led: it gave no vote in any of them.
-- The versions of the votes that it gave fall, from its own version on.
pub record IsPromised (stood : List ℕ) (c : Control) : Type 0 where
  pub once : Below (c.version + 1) c.grants
  pub own : c.state ≢ State.follower → Below c.version c.grants
  pub apart : Apart c.version stood c.grants

-- The versions in which the node has stood, with that of a step that ends in `c`.
abbrev pub stood_after : Control → List ℕ → List ℕ
stood_after c stood = if is_follower c.state then stood else c.version ∷ stood

Below-NotIn : (v : ℕ) (gs : List ℕ) → Below v gs → NotIn v gs
Below-NotIn v [] b = tt
Below-NotIn v (g ∷ gs) b =
    ((λ e. omega (arith, e, b.0)), Below-NotIn v gs (Below-mono gs (omega (arith, b.0)) b.1))

Apart-mono : {v w : ℕ} (stood gs : List ℕ) → v ≤ w → Apart v stood gs → Apart w stood gs
Apart-mono [] gs h a = tt
Apart-mono (v ∷ stood) gs h a = (omega arith, a.1, Apart-mono stood gs h a.2)

-- A vote above the bound is in none of the versions.
Apart-grant : {v w : ℕ} (stood gs : List ℕ) → v < w → Apart v stood gs → Apart w stood (w ∷ gs)
Apart-grant [] gs h a = tt
Apart-grant (v ∷ stood) gs h a =
    (omega arith, ((λ e. omega (arith, e, a.0)), a.1), Apart-grant stood gs h a.2)

-- Where the node stands, its own version joins those in which it stood.
IsPromised-after :
    (stood : List ℕ) (c : Control) → IsPromised stood c → IsPromised (stood_after c stood) c
IsPromised-after stood c p = elim (Bool-cases (is_follower c.state)) [
  | inl follows ↦ rw follows p
  | inr leads ↦
      let below = p.own (λ f. ground (arith, ap is_follower f)) in
      rw leads (record {
        once = p.once;
        own = p.own;
        apart = (omega arith, Below-NotIn c.version c.grants below, p.apart);
      })
]

module _ (stood : List ℕ) where
  abbrev Promised : Control → Type 0
  Promised c = IsPromised (stood_after c stood) c

  pub Move-IsPromised :
      {q : ℕ} {Yes : Type 0} {c c' : Control}
      → Move q Yes c c'
      → c.version < 2 ^ 31
      → c'.version < 2 ^ 31
      → IsPromised stood c
      → Promised c'
  Move-IsPromised {c = c} (Move.stay e) h h' p = subst Promised (sym e) (IsPromised-after stood c p)
  Move-IsPromised {c = c} (Move.campaign _ e) h h' p =
      let next = (lt_small c.version c.version h h).2 in
      let below : Below (increment32 c.version) c.grants = rw next p.once in
      subst Promised (sym e) (record {
        once = Below-mono c.grants (omega arith) below;
        own = λ _. below;
        apart = (
          omega arith,
          Below-NotIn (increment32 c.version) c.grants below,
          Apart-mono stood c.grants (omega (arith, next)) p.apart,
        );
      })
  Move-IsPromised {c = c} (Move.count _ s _ e) h h' p = subst Promised (sym e) (
      IsPromised-after stood (record c { votes = c.votes + 1 })
        (record { once = p.once; own = p.own; apart = p.apart }))
  Move-IsPromised {c = c} (Move.elect _ s _ e) h h' p =
      let below = p.own (λ f. cc) in
      subst Promised (sym e) (record {
        once = p.once;
        own = λ _. below;
        apart = (omega arith, Below-NotIn c.version c.grants below, p.apart);
      })
  Move-IsPromised {c = c} {c' = c'} (Move.follow a v n _ e) h h' p =
      let v_lt : v < 2 ^ 31 = rw e at h' in
      let c_le : c.version ≤ v = ground (arith, (lt_small v c.version v_lt h).0) in
      subst Promised (sym e) (record {
        once = Below-mono c.grants (omega arith) p.once;
        own = λ f. absurd (f refl);
        apart = Apart-mono stood c.grants c_le p.apart;
      })
  Move-IsPromised {c = c} (Move.grant a v g n e) h h' p =
      let v_lt : v < 2 ^ 31 = rw e at h' in
      let c_lt : c.version < v = ground (arith, (lt_small v c.version v_lt h).1) in
      subst Promised (sym e) (record {
        once = (omega arith, Below-mono c.grants (omega arith) p.once);
        own = λ f. absurd (f refl);
        apart = Apart-grant stood c.grants c_lt p.apart;
      })
  Move-IsPromised {c = c} (Move.refresh v s n e) h h' p =
      let v_lt : v < 2 ^ 31 = rw e at h' in
      let c_le : c.version ≤ v = ground (arith, (lt_small v c.version v_lt h).0) in
      subst Promised (sym e) (
        IsPromised-after stood (record c { version = v })
          (record {
            once = Below-mono c.grants (omega arith) p.once;
            own = λ n. absurd (n s);
            apart = Apart-mono stood c.grants c_le p.apart;
          }))
  Move-IsPromised {c = c} (Move.lose e) h h' p = subst Promised (sym e) (
      IsPromised-after stood (record c { leader = no_address })
        (record { once = p.once; own = p.own; apart = p.apart }))
