-- ===== src/Cache/Evict.antt =====
-- The loops of `reserve_space`, and `get` and `put`, of Base/LRUCache.hpp beside a value in use.
use tiny_backend.Prelude.{
  ℕ, ◌-◌, ◌≡◌, ◌≢◌, inl, inr, Bool, true, false, not, ◌||◌, none, some, List, [], ◌∷◌, ◌++◌, ltb,
  leb, if◌then◌else◌, Bool-cases, Option-cases,
}
use tiny_backend.Prelude.Partial.{
  Safely, Safely-some, Safely-bind, Safely-assert, Safely-each, Safely-if,
}
use tiny_backend.Cache.{
  Helper, Node, Cache, find, dequeue, unlink_obsolete, get_change, put_change, update_value,
  evict_clean, evict_temporary, evict_persistent, reserve_space, get, put, up32, down32,
  threshold_time,
}
use tiny_backend.Cache.Held.{
  is_queued, Held, not_same, is_queued-unlink, is_queued-append, Held-release,
  Held-unlink_temporary, Held-unlink_persistent, Held-put_node, front_other,
}

module _ {H K V : Type 0} (same : K → K → Bool) (ops : Helper H K V)
    (same_equal : (a b : K) → same a b ≡ true → a ≡ b) (self : (a : K) → same a a ≡ true) (key : K)
    (node : Node V) where
  -- The victims of each loop stand in a queue, so the node is not one of them.
  evict_clean-Held :
      (wanted : K) (queue : List K) (c : Cache H K V)
      → is_queued same ops key queue ≡ false
      → Held same ops key node c
      → Safely (Held same ops key node) (evict_clean same ops wanted queue c)
  unfolding evict_clean
  evict_clean-Held wanted [] c q h = Safely-some h
  evict_clean-Held wanted (k ∷ queue) c q h =
      let (ne, q') = front_other same ops same_equal key k queue q self in
      Safely-if (ops.can_create c.helper wanted) (Safely-some h) (
        Safely-each (find same ops k c.nodes) (λ n.
          Safely-if n.need_update (evict_clean-Held wanted queue c q' h) (
            evict_clean-Held wanted queue _ q' (
              Held-release same ops same_equal key k node n _ ne
                (Held-unlink_temporary same ops same_equal key k node c h)))))

  evict_temporary-Held :
      (wanted : K) (queue : List K) (c : Cache H K V)
      → is_queued same ops key queue ≡ false
      → Held same ops key node c
      → Safely (Held same ops key node) (evict_temporary same ops wanted queue c)
  unfolding evict_temporary update_value unlink_obsolete
  evict_temporary-Held wanted [] c q h = Safely-some h
  evict_temporary-Held wanted (k ∷ queue) c q h =
      let (ne, q') = front_other same ops same_equal key k queue q self in
      Safely-if (ops.can_create c.helper wanted) (Safely-some h) (
        Safely-each (find same ops k c.nodes) (λ n. Safely-assert n.need_update (
          evict_temporary-Held wanted queue _ q' (
            Held-release same ops same_equal key k node _ _ ne (record {
              present = h.present;
              not_temporary =
                  is_queued-unlink same ops same_equal key k c.temporary h.not_temporary;
              not_persistent = h.not_persistent;
            })))))

  evict_persistent-Held :
      (wanted : K) (queue : List K) (c : Cache H K V)
      → is_queued same ops key queue ≡ false
      → Held same ops key node c
      → Safely (Held same ops key node) (evict_persistent same ops wanted queue c)
  unfolding evict_persistent update_value unlink_obsolete
  evict_persistent-Held wanted [] c q h = Safely-some h
  evict_persistent-Held wanted (k ∷ queue) c q h =
      let (ne, q') = front_other same ops same_equal key k queue q self in
      Safely-if (ops.can_create c.helper wanted) (Safely-some h) (
        Safely-each (find same ops k c.nodes) (λ n.
          Safely-if n.need_update
            (evict_persistent-Held wanted queue _ q' (
              Held-release same ops same_equal key k node _ _ ne (record {
                present = h.present;
                not_temporary = h.not_temporary;
                not_persistent =
                    is_queued-unlink same ops same_equal key k c.persistent h.not_persistent;
              })))
            (evict_persistent-Held wanted queue _ q' (
              Held-release same ops same_equal key k node n _ ne
                (Held-unlink_persistent same ops same_equal key k node c h)))))

  reserve_space-Held :
      (wanted : K) (c : Cache H K V)
      → Held same ops key node c
      → Safely (λ (room, c'). Held same ops key node c') (reserve_space same ops wanted c)
  unfolding reserve_space
  reserve_space-Held wanted c h =
      Safely-bind (Held same ops key node) (evict_clean-Held wanted c.temporary c h.not_temporary h)
        (λ c₁ h₁.
          Safely-bind (Held same ops key node)
            (evict_temporary-Held wanted c₁.temporary c₁ h₁.not_temporary h₁)
            (λ c₂ h₂.
              Safely-bind (Held same ops key node)
                (evict_persistent-Held wanted c₂.persistent c₂ h₂.not_persistent h₂)
                (λ c₃ h₃. Safely-some h₃)))

  Held-dequeue :
      (k : K) (n : Node V) (c : Cache H K V)
      → Held same ops key node c
      → Held same ops key node (dequeue same ops k n c)
  unfolding dequeue
  Held-dequeue k n c h = elim (Bool-cases n.is_persistent) [
    | inl lasting ↦ rw lasting (Held-unlink_persistent same ops same_equal key k node c h)
    | inr passing ↦ rw passing (Held-unlink_temporary same ops same_equal key k node c h)
  ]

  -- A change of the obsolete queue.
  Held-obsolete :
      (queue : List K) (c : Cache H K V)
      → Held same ops key node c
      → Held same ops key node (record c { obsolete = queue })
  Held-obsolete queue c h = record {
    present = h.present;
    not_temporary = h.not_temporary;
    not_persistent = h.not_persistent;
  }

  get_change-Held :
      (k : K) (n : Node V) (c : Cache H K V)
      → key ≢ k
      → Held same ops key node c
      → Safely (Held same ops key node) (get_change same ops k n c)
  unfolding get_change unlink_obsolete
  get_change-Held k n c ne h =
      let out = Held-dequeue k n c h in
      Safely-if (ltb 1 (up32 n.instantiated_size))
        (Safely-some (Held-put_node same ops same_equal key k node _ c ne h))
        (Safely-assert n.iter (
          Safely-if n.obsolete_iter
            (Safely-assert n.need_update (
              Safely-some
                (Held-put_node same ops same_equal key k node _ _ ne (Held-obsolete _ _ out))))
            (Safely-some (Held-put_node same ops same_equal key k node _ _ ne out))))

  put_change-Held :
      (k : K) (n : Node V) (now : ℕ) (c : Cache H K V)
      → key ≢ k
      → Held same ops key node c
      → Safely (Held same ops key node) (put_change same ops k n now c)
  unfolding put_change
  put_change-Held k n now c ne h =
      let lasting = n.is_persistent || leb threshold_time (now - n.instantiated_time) in
      let queued : Held same ops key node (
          if lasting
          then record c { persistent = c.persistent ++ (k ∷ []) }
          else record c { temporary = c.temporary ++ (k ∷ []) }) =
        elim (Bool-cases lasting) [
          | inl stays ↦ rw stays (record {
            present = h.present;
            not_temporary = h.not_temporary;
            not_persistent =
                is_queued-append same ops same_equal key k c.persistent ne h.not_persistent;
          })
          | inr leaves ↦ rw leaves (record {
            present = h.present;
            not_temporary =
                is_queued-append same ops same_equal key k c.temporary ne h.not_temporary;
            not_persistent = h.not_persistent;
          })
        ] in
      Safely-if (ltb 0 (down32 n.instantiated_size))
        (Safely-some (Held-put_node same ops same_equal key k node _ c ne h))
        (Safely-if n.need_update
          (Safely-assert (not n.obsolete_iter) (
            Safely-some
              (Held-put_node same ops same_equal key k node _ _ ne (Held-obsolete _ _ queued))))
          (Safely-some (Held-put_node same ops same_equal key k node _ _ ne queued)))

  -- A miss that finds room adds a node of its own key.
  created :
      (room : Bool) (k : K) (new : Node V) (helper : H) (c : Cache H K V)
      → key ≢ k
      → Held same ops key node c
      → Safely
          (λ (r, c'). Held same ops key node c')
          (some (
            if room
            then (some new.value, record c { helper = helper; nodes = (k, new) ∷ c.nodes })
            else (none, c)))
  unfolding find
  created true k new helper c ne h = Safely-some (record {
    present = rw (not_same same ops same_equal ne) h.present;
    not_temporary = h.not_temporary;
    not_persistent = h.not_persistent;
  })
  created false k new helper c ne h = Safely-some h

  -- While a value is in use, so that its node stands in neither queue, a `get` of another key that
  -- fails no assertion, be it a hit, a miss that evicts, or one that throws, leaves the node as it
  -- is and out of the queues; and so does a `put` of another key.
  pub get-put-Held :
      (k : K) (now : ℕ) (need_update : Bool) (c : Cache H K V)
      → key ≢ k
      → Held same ops key node c
      → Safely (λ (r, c'). Held same ops key node c') (get same ops k now c)
        × Safely (Held same ops key node) (put same ops k need_update now c)
  unfolding get put
  get-put-Held k now need_update c ne h = (
    elim (Option-cases (find same ops k c.nodes)) [
      | inl missing ↦
          rw (missing, get)
            (Safely-bind (λ (room, c'). Held same ops key node c') (reserve_space-Held k c h)
              (λ (room, c') h'. created room k _ _ c' ne h'))
      | inr (n, found) ↦
          rw (found, get)
            (Safely-bind (Held same ops key node) (get_change-Held k n c ne h)
              (λ c' h'. Safely-some h'))
    ],
    Safely-each (find same ops k c.nodes) (λ n. put_change-Held k _ now c ne h),
  )
