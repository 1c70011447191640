-- ===== src/Cache.antt =====
-- Base/LRUCache.hpp: a cache over a helper that makes, updates and releases values. The map is an
-- association list, and a queue of iterators into it is the list of their keys, each at most once. An
-- iterator into a queue that a node keeps is a flag: whether it is not `end()`, the null pointer.
-- `none` is a failed `assert`; an exception that leaves `get` or `remove` is an inner `none` or `false`.
pub mod Held
pub mod Evict
pub mod Users
pub mod Uses
mod Tests
use tiny_backend.Prelude.Partial.{◌>>=◌, ◌>>◌, assert}
use tiny_backend.Prelude.{
  ℕ, zero, suc, ◌+◌, ◌-◌, ◌%◌, ◌^◌, Bool, true, false, not, ◌&&◌, ◌||◌, Option, none, some, List,
  [], ◌∷◌, ◌++◌, length, ltb, leb, ◌==◌, if◌then◌else◌,
}

-- What the cache calls of its helper. A helper without `release` is one whose `release` does nothing.
pub record Helper (H K V : Type 0) : Type 0 where
  pub can_create : H → K → Bool
  pub create : H → K → V × H
  pub update : H → K → V → V × H
  pub release : H → K → V → H

pub record Node (V : Type 0) : Type 0 where
  pub value : V
  pub need_update : Bool
  pub is_persistent : Bool
  pub instantiated_size : ℕ
  pub instantiated_time : ℕ
  pub iter : Bool
  pub obsolete_iter : Bool

pub record Cache (H K V : Type 0) : Type 0 where
  pub helper : H
  pub nodes : List (K × Node V)
  pub persistent : List K
  pub temporary : List K
  pub obsolete : List K

-- The sizes, cut to a uint32.
abbrev pub need_update_size : {H K V : Type 0} → Cache H K V → ℕ
need_update_size c = length c.obsolete % 2 ^ 32

abbrev pub total_size : {H K V : Type 0} → Cache H K V → ℕ
total_size c = length c.nodes % 2 ^ 32

-- One second, in nanoseconds.
abbrev pub threshold_time : ℕ
threshold_time = 1000000000

-- A uint32 after `++` and after `--`.
abbrev pub up32 : ℕ → ℕ
up32 n = (n + 1) % 2 ^ 32

abbrev pub down32 : ℕ → ℕ
down32 n = (n + (2 ^ 32 - 1)) % 2 ^ 32

module _ {H K V : Type 0} (same : K → K → Bool) (ops : Helper H K V) where
  unfoldable pub find : K → List (K × Node V) → Option (Node V)
  find key [] = none
  find key ((k, node) ∷ nodes) =
      let later = find key nodes in if same key k then some node else later

  unfoldable pub store : K → Node V → List (K × Node V) → List (K × Node V)
  store key v [] = []
  store key v ((k, node) ∷ nodes) =
      let later = store key v nodes in if same key k then (k, v) ∷ nodes else (k, node) ∷ later

  unfoldable pub drop_node : K → List (K × Node V) → List (K × Node V)
  drop_node key [] = []
  drop_node key ((k, node) ∷ nodes) =
      let later = drop_node key nodes in if same key k then later else (k, node) ∷ later

  -- `erase` of the iterator at a key.
  unfoldable pub unlink : K → List K → List K
  unlink key [] = []
  unlink key (k ∷ queue) = let later = unlink key queue in if same key k then later else k ∷ later

  unfoldable pub put_node : K → Node V → Cache H K V → Cache H K V
  put_node key node c = record c { nodes = store key node c.nodes }

  -- The erasure of a node from the queue that its flag names.
  unfoldable pub dequeue : K → Node V → Cache H K V → Cache H K V
  dequeue key node c =
      if node.is_persistent
      then record c { persistent = unlink key c.persistent }
      else record c { temporary = unlink key c.temporary }

  unfoldable pub unlink_obsolete : K → Cache H K V → Cache H K V
  unlink_obsolete key c = record c { obsolete = unlink key c.obsolete }

  unfoldable pub get_change : K → Node V → Cache H K V → Option (Cache H K V)
  get_change key node c =
      let held = record node { instantiated_size = up32 node.instantiated_size } in
      let taken = record held { iter = false } in
      let out = dequeue key node c in
      if ltb 1 held.instantiated_size
      then some (put_node key held c)
      else assert node.iter
        >> (if node.obsolete_iter
            then (do
              assert node.need_update
              some
                  (put_node key (record taken { obsolete_iter = false }) (unlink_obsolete key out)))
            else some (put_node key taken out))

  unfoldable pub put_change : K → Node V → ℕ → Cache H K V → Option (Cache H K V)
  put_change key node now c =
      let left = record node { instantiated_size = down32 node.instantiated_size } in
      let lasting = node.is_persistent || leb threshold_time (now - node.instantiated_time) in
      let queued = record left { is_persistent = lasting; iter = true } in
      let c' =
        if lasting
        then record c { persistent = c.persistent ++ (key ∷ []) }
        else record c { temporary = c.temporary ++ (key ∷ []) } in
      if ltb 0 left.instantiated_size
      then some (put_node key left c)
      else if node.need_update
      then (do
        assert (not node.obsolete_iter)
        some (
            put_node key (record queued { obsolete_iter = true })
              (record c' { obsolete = c'.obsolete ++ (key ∷ []) })))
      else some (put_node key queued c')

  -- The helper's update of a node, and its release.
  unfoldable pub update_value : K → Node V → Cache H K V → Node V × Cache H K V
  update_value key node c =
      let (value, helper) = ops.update c.helper key node.value in
      (record node { value = value }, record c { helper = helper })

  unfoldable pub release_node : K → Node V → Cache H K V → Cache H K V
  release_node key node c = record c {
    helper = ops.release c.helper key node.value;
    nodes = drop_node key c.nodes;
  }

  -- The three loops of `reserve_space`, over the queue that is left.
  unfoldable pub evict_clean : K → List K → Cache H K V → Option (Cache H K V)
  evict_clean key [] c = some c
  evict_clean key (k ∷ queue) c =
      let rest : Cache H K V → Option (Cache H K V) = λ c'. evict_clean key queue c' in
      if ops.can_create c.helper key
      then some c
      else find k c.nodes >>= λ node.
          if node.need_update
          then rest c
          else rest (release_node k node (record c { temporary = unlink k c.temporary }))

  unfoldable pub evict_temporary : K → List K → Cache H K V → Option (Cache H K V)
  evict_temporary key [] c = some c
  evict_temporary key (k ∷ queue) c =
      let rest : Cache H K V → Option (Cache H K V) = λ c'. evict_temporary key queue c' in
      if ops.can_create c.helper key
      then some c
      else find k c.nodes >>= λ node.
          let (node', c') = update_value k node c in
          let out = record (unlink_obsolete k c') { temporary = unlink k c.temporary } in
          assert node.need_update >> rest (release_node k node' out)

  unfoldable pub evict_persistent : K → List K → Cache H K V → Option (Cache H K V)
  evict_persistent key [] c = some c
  evict_persistent key (k ∷ queue) c =
      let rest : Cache H K V → Option (Cache H K V) = λ c'. evict_persistent key queue c' in
      if ops.can_create c.helper key
      then some c
      else find k c.nodes >>= λ node.
          let (node', c') = update_value k node c in
          let updated = unlink_obsolete k c' in
          if node.need_update
          then rest (release_node k node' (record updated { persistent = unlink k c.persistent }))
          else rest (release_node k node (record c { persistent = unlink k c.persistent }))

  -- Whether there is room in the end; if not, the code throws.
  unfoldable pub reserve_space : K → Cache H K V → Option (Bool × Cache H K V)
  reserve_space key c = do
    c₁ ← evict_clean key c.temporary c
    c₂ ← evict_temporary key c₁.temporary c₁
    c₃ ← evict_persistent key c₂.persistent c₂
    some (ops.can_create c₃.helper key, c₃)

  -- `get` at the time `now`.
  unfoldable pub get : K → ℕ → Cache H K V → Option (Option V × Cache H K V)
  get key now c = elim (find key c.nodes) [
    | some node ↦ (do c' ← get_change key node c; some (some node.value, c'))
    | none ↦ (do
      (room, c') ← reserve_space key c
      let (value, helper) = ops.create c'.helper key
      let node : Node V = record {
        value = value;
        need_update = false;
        is_persistent = false;
        instantiated_size = 1;
        instantiated_time = now;
        iter = false;
        obsolete_iter = false;
      }
      some (
          if room
          then (some value, record c' { helper = helper; nodes = (key, node) ∷ c'.nodes })
          else (none, c')))
  ]

  unfoldable pub put : K → Bool → ℕ → Cache H K V → Option (Cache H K V)
  put key need_update now c = find key c.nodes >>= λ node.
      put_change key (record node { need_update = node.need_update || need_update }) now c

  -- The update of one node of the obsolete queue.
  unfoldable pub refresh : K → Cache H K V → Option (Cache H K V)
  refresh key c = do
    node ← find key c.nodes
    let (node', c') = update_value key node c
    assert node.need_update
    assert (node.instantiated_size == 0)
    some (put_node key (record node' { need_update = false; obsolete_iter = false }) c')

  unfoldable pub refresh_all : List K → Cache H K V → Option (Cache H K V)
  refresh_all [] c = some c
  refresh_all (key ∷ queue) c = refresh key c >>= λ c'. refresh_all queue c'

  unfoldable pub update_one : Cache H K V → Option (Cache H K V)
  update_one c = elim c.obsolete [
    | [] ↦ some c
    | key ∷ queue ↦ (do
      assert (elim (find key c.nodes) [ none ↦ false | some node ↦ node.obsolete_iter ])
      c' ← refresh key c
      some (record c' { obsolete = queue }))
  ]

  unfoldable pub update_all : Cache H K V → Option (Cache H K V)
  update_all c = do c' ← refresh_all c.obsolete c; some (record c' { obsolete = [] })

  -- `sort` is the order that the caller gives for the updates.
  unfoldable pub update_all_with_order : (List K → List K) → Cache H K V → Option (Cache H K V)
  update_all_with_order sort c = do
    c' ← refresh_all (sort c.obsolete) c
    some (record c' { obsolete = [] })

  -- `false` when the key is missing and the code throws.
  unfoldable pub remove : K → Cache H K V → Option (Bool × Cache H K V)
  remove key c = elim (find key c.nodes) [
    | none ↦ some (false, c)
    | some node ↦
        let (node', c') = update_value key node c in
        (do
          assert (node.instantiated_size == 0)
          assert (not node.need_update || node.obsolete_iter)
          assert node.iter
          some (
            true,
            if node.need_update
                then release_node key node' (dequeue key node (unlink_obsolete key c'))
                else release_node key node (dequeue key node c),
          ))
  ]

  -- `erase` for a helper without `release`, which is then not called at all; with one the code does
  -- not compile.
  unfoldable pub erase : K → Cache H K V → Option (Cache H K V)
  erase key c = elim (find key c.nodes) [
    | none ↦ some c
    | some node ↦
        let apart = if node.need_update then unlink_obsolete key c else c in
        let out = dequeue key node apart in
        (do
          assert (node.instantiated_size == 0)
          assert (not node.need_update || node.obsolete_iter)
          assert node.iter
          some (record out { nodes = drop_node key out.nodes }))
  ]

  unfoldable pub destroy_all : List (K × Node V) → H → Option H
  destroy_all [] helper = some helper
  destroy_all ((key, node) ∷ nodes) helper =
      let (value, updated) = ops.update helper key node.value in
      let released =
        if node.need_update
        then ops.release updated key value
        else ops.release helper key node.value in
      assert (node.instantiated_size == 0) >> destroy_all nodes released

  -- The destructor: the helper that is left, unless a value is still in use.
  unfoldable pub destroy : Cache H K V → Option H
  destroy c = destroy_all c.nodes c.helper
