-- ===== src/Cache/Users.antt =====
-- The number of users of a value of Base/LRUCache.hpp, and the place of its node.
use tiny_backend.Prelude.{
  ℕ, ◌<◌, ◌≡◌, inl, inr, refl, Bool, true, false, some, List, [], ◌∷◌, arith, if◌then◌else◌,
  Bool-cases,
}
use tiny_backend.Cache.{Helper, Node, Cache, find, store, dequeue, unlink, put_node}
use tiny_backend.Cache.Held.{is_queued, Held}

module _ {H K V : Type 0} (same : K → K → Bool) (ops : Helper H K V) (key : K) where
  -- The node of a key, which stands in no queue but the one that its flag names, and in that one only
  -- when nobody uses its value. `n` is the number of users.
  pub record Uses (value : V) (n : ℕ) (c : Cache H K V) : Type 0 where
    pub node : Node V
    pub present : find same ops key c.nodes ≡ some node
    pub same_value : node.value ≡ value
    pub users : node.instantiated_size ≡ n
    pub other_queue :
        is_queued same ops key (if node.is_persistent then c.temporary else c.persistent) ≡ false
    pub own_queue :
        0 < n
        → is_queued same ops key (if node.is_persistent then c.persistent else c.temporary) ≡ false
    pub not_obsolete : 0 < n → node.obsolete_iter ≡ false
    pub has_iter : n ≡ 0 → node.iter ≡ true
    pub waits : n ≡ 0 → node.obsolete_iter ≡ true → node.need_update ≡ true

  pub find-store_self :
      (v : Node V) (nodes : List (K × Node V)) {n : Node V}
      → find same ops key nodes ≡ some n
      → find same ops key (store same ops key v nodes) ≡ some v
  unfolding find store
  find-store_self v [] h = cc
  find-store_self v ((x, m) ∷ nodes) h = elim (Bool-cases (same key x)) [
    | inl e ↦ rw (e, e) refl
    | inr e ↦ rw (e, e) (find-store_self v nodes (rw e at h))
  ]

  is_queued-unlink_self :
      (queue : List K) → is_queued same ops key (unlink same ops key queue) ≡ false
  unfolding is_queued unlink
  is_queued-unlink_self [] = refl
  is_queued-unlink_self (x ∷ queue) = elim (Bool-cases (same key x)) [
    | inl e ↦ rw e (is_queued-unlink_self queue)
    | inr e ↦ rw (e, e) (is_queued-unlink_self queue)
  ]

  either :
      (b : Bool) (t p : List K)
      → is_queued same ops key t ≡ false
      → is_queued same ops key p ≡ false
      → is_queued same ops key (if b then t else p) ≡ false
  either true t p h h' = h
  either false t p h h' = h'

  -- A value in use is one whose node stands in neither queue.
  pub Held-Uses :
      {v : V} {n : ℕ} {node : Node V} {c : Cache H K V}
      → Held same ops key node c
      → node.value ≡ v
      → node.instantiated_size ≡ n
      → node.obsolete_iter ≡ false
      → 0 < n
      → Uses v n c
  Held-Uses {node = node} h val size clear pos = record {
    node = node;
    present = h.present;
    same_value = val;
    users = size;
    other_queue = either node.is_persistent _ _ h.not_temporary h.not_persistent;
    own_queue = λ _. either node.is_persistent _ _ h.not_persistent h.not_temporary;
    not_obsolete = λ _. clear;
    has_iter = λ e. absurd (omega (arith, e, pos));
    waits = λ e. absurd (omega (arith, e, pos));
  }

  pub Uses-Held :
      {v : V} {n : ℕ} {c : Cache H K V} → 0 < n → (u : Uses v n c) → Held same ops key u.node c
  Uses-Held {c = c} pos u =
      let other = u.other_queue in
      let own = u.own_queue pos in
      elim (Bool-cases u.node.is_persistent) [
        | inl e ↦ record {
          present = u.present;
          not_temporary = rw e at other;
          not_persistent = rw e at own;
        }
        | inr e ↦ record {
          present = u.present;
          not_temporary = rw e at own;
          not_persistent = rw e at other;
        }
      ]

  -- The node leaves the queue that its flag names.
  pub Held-take :
      (node node' : Node V) (c : Cache H K V)
      → find same ops key c.nodes ≡ some node
      → is_queued same ops key (if node.is_persistent then c.temporary else c.persistent) ≡ false
      → Held same ops key node' (put_node same ops key node' (dequeue same ops key node c))
  unfolding dequeue put_node
  Held-take node node' c found other = elim (Bool-cases node.is_persistent) [
    | inl e ↦ rw e (record {
      present = find-store_self node' c.nodes found;
      not_temporary = rw e at other;
      not_persistent = is_queued-unlink_self c.persistent;
    })
    | inr e ↦ rw e (record {
      present = find-store_self node' c.nodes found;
      not_temporary = is_queued-unlink_self c.temporary;
      not_persistent = rw e at other;
    })
  ]

  pub Held-obsolete :
      (queue : List K) (node : Node V) (c : Cache H K V)
      → Held same ops key node (put_node same ops key node c)
      → Held same ops key node (put_node same ops key node (record c { obsolete = queue }))
  unfolding put_node
  Held-obsolete queue node c h = record {
    present = h.present;
    not_temporary = h.not_temporary;
    not_persistent = h.not_persistent;
  }

  pub Held-change :
      (node node' : Node V) (c : Cache H K V)
      → Held same ops key node c
      → Held same ops key node' (put_node same ops key node' c)
  unfolding put_node
  Held-change node node' c h = record {
    present = find-store_self node' c.nodes h.present;
    not_temporary = h.not_temporary;
    not_persistent = h.not_persistent;
  }
