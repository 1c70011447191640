-- ===== src/Cache/Tests.antt =====
-- Runs of the cache of Base/LRUCache.hpp over a helper with room for two values, and the results on them.
use tiny_backend.Prelude.Partial.{◌>>=◌}
use tiny_backend.Prelude.{
  ℕ, ◌+◌, ◌-◌, ◌*◌, ◌≡◌, refl, Bool, true, false, none, some, [], ◌∷◌, ◌++◌, ltb, ◌==◌,
}
use tiny_backend.Cache.{
  find, store, drop_node, unlink, put_node, dequeue, unlink_obsolete, get_change, put_change,
  update_value, release_node, evict_clean, evict_temporary, evict_persistent, reserve_space,
  refresh, refresh_all, destroy_all, Helper, Node, Cache, need_update_size, total_size, get, put,
  update_all, update_one, remove, erase, destroy,
}
use tiny_backend.Cache.Users.{Uses}

-- The state of the helper counts its values, and the updates that it made.
abbrev Room : Type 0
Room = ℕ × ℕ

abbrev two : Helper Room ℕ ℕ
two = record {
  can_create = λ (n, u) key. ltb n 2;
  create = λ (n, u) key. (key * 10, (n + 1, u));
  update = λ (n, u) key value. (value, (n, u + 1));
  release = λ (n, u) key value. (n - 1, u);
}

abbrev key_equal : ℕ → ℕ → Bool
key_equal a b = a == b

abbrev empty : Cache Room ℕ ℕ
empty = record { helper = (0, 0); nodes = []; persistent = []; temporary = []; obsolete = [] }

abbrev in_use : Node ℕ
in_use = record {
  value = 10;
  need_update = false;
  is_persistent = false;
  instantiated_size = 1;
  instantiated_time = 0;
  iter = false;
  obsolete_iter = false;
}

abbrev idle : Node ℕ
idle = record in_use {
  value = 20;
  need_update = true;
  instantiated_size = 0;
  iter = true;
  obsolete_iter = true;
}

-- The value of key 1 is in use, and that of key 2 waits for its update.
abbrev busy : Cache Room ℕ ℕ
busy = record {
  helper = (2, 0);
  nodes = (2, idle) ∷ (1, in_use) ∷ [];
  persistent = [];
  temporary = 2 ∷ [];
  obsolete = 2 ∷ [];
}

runs :
    ((get key_equal two 1 0 empty >>= λ (v, c).
    get key_equal two 2 0 c >>= λ (w, d). put key_equal two 2 true 5 d)
      ≡ some busy)
    × ((get key_equal two 3 9 busy >>= λ (v, c). some v) ≡ some (some 30))
    × ((get key_equal two 3 9 busy >>= λ (v, c). some c.helper) ≡ some (2, 1))
    × ((get key_equal two 3 9 busy >>= λ (v, c). get key_equal two 4 9 c >>= λ (w, d). some w)
        ≡ some none)
    × ((update_all key_equal two busy >>= λ c. some c.obsolete) ≡ some [])
    × ((update_one key_equal two busy >>= λ c. some c.helper) ≡ some (2, 1))
    × ((remove key_equal two 2 busy >>= λ (b, c). some c.helper) ≡ some (1, 1))
    × (destroy key_equal two busy ≡ none)
unfolding find store drop_node unlink put_node dequeue unlink_obsolete get_change put_change
    update_value release_node evict_clean evict_temporary evict_persistent reserve_space get put
    refresh refresh_all update_one update_all remove destroy_all destroy
runs = (refl, refl, refl, refl, refl, refl, refl, refl)

sizes : (need_update_size busy ≡ 1) × (total_size busy ≡ 2)
sizes = (refl, refl)

erased : (erase key_equal two 2 busy >>= λ c. some (c.temporary ++ c.obsolete)) ≡ some []
unfolding find drop_node unlink unlink_obsolete dequeue erase
erased = refl
