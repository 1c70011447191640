-- ===== src/Cache/Held.antt =====
-- What Base/LRUCache.hpp keeps of a value that is in use: its node stands in none of the two queues
-- from which `reserve_space` takes its victims.
use tiny_backend.Prelude.{
  ◌≡◌, ◌≢◌, inl, inr, refl, sym, ap, ◌∙◌, Bool, true, false, ◌||◌, some, List, [], ◌∷◌, ◌++◌, arith,
  Bool-cases,
}
use tiny_backend.Cache.{Helper, Node, Cache, find, store, drop_node, unlink, put_node, release_node}

or_false : (a b : Bool) → (a || b) ≡ false → (a ≡ false) × (b ≡ false)
or_false a b h = ground arith

module _ {H K V : Type 0} (same : K → K → Bool) (ops : Helper H K V) where
  unfoldable pub is_queued : K → List K → Bool
  is_queued key [] = false
  is_queued key (k ∷ queue) = same key k || is_queued key queue

  pub record Held (key : K) (node : Node V) (c : Cache H K V) : Type 0 where
    pub present : find same ops key c.nodes ≡ some node
    pub not_temporary : is_queued key c.temporary ≡ false
    pub not_persistent : is_queued key c.persistent ≡ false

  module _ (same_equal : (a b : K) → same a b ≡ true → a ≡ b) where
    pub not_same : {a b : K} → a ≢ b → same a b ≡ false
    not_same {a} {b} ne = elim (Bool-cases (same a b)) [
      | inl e ↦ absurd (ne (same_equal a b e))
      | inr e ↦ e
    ]

    find-drop_node :
        (key k : K) (nodes : List (K × Node V))
        → key ≢ k
        → find same ops key (drop_node same ops k nodes) ≡ find same ops key nodes
    unfolding find drop_node
    find-drop_node key k [] ne = refl
    find-drop_node key k ((x, n) ∷ nodes) ne = elim (Bool-cases (same k x)) [
      | inl e ↦
          let other = not_same (λ q. ne (q ∙ sym (same_equal k x e))) in
          rw (e, other) (find-drop_node key k nodes ne)
      | inr e ↦ rw (e, find-drop_node key k nodes ne) refl
    ]

    find-store :
        (key k : K) (v : Node V) (nodes : List (K × Node V))
        → key ≢ k
        → find same ops key (store same ops k v nodes) ≡ find same ops key nodes
    unfolding find store
    find-store key k v [] ne = refl
    find-store key k v ((x, n) ∷ nodes) ne = elim (Bool-cases (same k x)) [
      | inl e ↦ let other = not_same (λ q. ne (q ∙ sym (same_equal k x e))) in rw (e, other) refl
      | inr e ↦ rw (e, find-store key k v nodes ne) refl
    ]

    pub is_queued-unlink :
        (key k : K) (queue : List K)
        → is_queued key queue ≡ false
        → is_queued key (unlink same ops k queue) ≡ false
    unfolding is_queued unlink
    is_queued-unlink key k [] h = refl
    is_queued-unlink key k (x ∷ queue) h =
        let (here, later) = or_false (same key x) (is_queued key queue) h in
        elim (Bool-cases (same k x)) [
          | inl e ↦ rw e (is_queued-unlink key k queue later)
          | inr e ↦ rw (e, here) (is_queued-unlink key k queue later)
        ]

    pub is_queued-append :
        (key k : K) (queue : List K)
        → key ≢ k
        → is_queued key queue ≡ false
        → is_queued key (queue ++ (k ∷ [])) ≡ false
    unfolding is_queued
    is_queued-append key k [] ne h = rw (not_same ne) refl
    is_queued-append key k (x ∷ queue) ne h =
        let (here, later) = or_false (same key x) (is_queued key queue) h in
        rw here (is_queued-append key k queue ne later)

    -- Another node is released, and leaves its queue.
    pub Held-release :
        (key k : K) (node n : Node V) (c : Cache H K V)
        → key ≢ k
        → Held key node c
        → Held key node (release_node same ops k n c)
    unfolding release_node
    Held-release key k node n c ne h = record {
      present = find-drop_node key k c.nodes ne ∙ h.present;
      not_temporary = h.not_temporary;
      not_persistent = h.not_persistent;
    }

    pub Held-unlink_temporary :
        (key k : K) (node : Node V) (c : Cache H K V)
        → Held key node c
        → Held key node (record c { temporary = unlink same ops k c.temporary })
    Held-unlink_temporary key k node c h = record {
      present = h.present;
      not_temporary = is_queued-unlink key k c.temporary h.not_temporary;
      not_persistent = h.not_persistent;
    }

    pub Held-unlink_persistent :
        (key k : K) (node : Node V) (c : Cache H K V)
        → Held key node c
        → Held key node (record c { persistent = unlink same ops k c.persistent })
    Held-unlink_persistent key k node c h = record {
      present = h.present;
      not_temporary = h.not_temporary;
      not_persistent = is_queued-unlink key k c.persistent h.not_persistent;
    }

    pub Held-put_node :
        (key k : K) (node n : Node V) (c : Cache H K V)
        → key ≢ k
        → Held key node c
        → Held key node (put_node same ops k n c)
    unfolding put_node
    Held-put_node key k node n c ne h = record {
      present = find-store key k n c.nodes ne ∙ h.present;
      not_temporary = h.not_temporary;
      not_persistent = h.not_persistent;
    }

    -- A node that stands in front of the queue is another one.
    pub front_other :
        (key k : K) (queue : List K)
        → is_queued key (k ∷ queue) ≡ false
        → ((a : K) → same a a ≡ true)
        → (key ≢ k) × (is_queued key queue ≡ false)
    unfolding is_queued
    front_other key k queue h self =
        let (here, later) = or_false (same key k) (is_queued key queue) h in
        (λ q. cc (self key, ap (same key) q, here), later)
