-- ===== src/BpTree/Reuse.antt =====
-- Base/BPTree_impls/BPTree_impl.hpp: the block that `erase_block` gives back is the next one that
-- `get_new_block_index` takes.
use mathlib.Core.Path.{subst}
use tiny_backend.Prelude.Partial.{◌>>=◌}
use tiny_backend.Prelude.{
  ℕ, zero, suc, ◌-◌, ◌<◌, ◌≡◌, ◌≢◌, refl, sym, ap, ◌∙◌, Bool, true, false, not, Option, none, some,
  List, [], ◌∷◌, length, get_elem?, get_or, set, replicate, length-replicate, get_elem?-set_self,
  get_elem?-set_ne, ltb, ◌==◌, if◌then◌else◌, ◌⊎◌, inl, inr, Bool-cases, arith,
}
use tiny_backend.BpTree.{Block, record_block}
use tiny_backend.BpTree.Store.{Tree, put}
use tiny_backend.BpTree.Free.{
  record_room, as_record, get_record, can_add_deleted_block, record_add, head_add, new_record,
  give_back, leave_record, head_pop, get_new_block_index,
}

get_elem?-lt {κ} :
    {A : Type κ} (xs : List A) (i : ℕ) {a : A} → get_elem? xs i ≡ some a → i < length xs
get_elem?-lt [] i e = absurd (ground arith)
get_elem?-lt (x ∷ xs) zero e = omega arith
get_elem?-lt (x ∷ xs) (suc i) e = let r = get_elem?-lt xs i e in omega (arith, r)

get_elem?-inside {κ} :
    {A : Type κ} (xs : List A) (i : ℕ) → i < length xs → (a : A) × (get_elem? xs i ≡ some a)
get_elem?-inside [] i h = absurd (omega arith)
get_elem?-inside (x ∷ xs) zero h = (x, refl)
get_elem?-inside (x ∷ xs) (suc i) h = get_elem?-inside xs i (omega arith)

get_or-set : (xs : List ℕ) (i v : ℕ) → i < length xs → get_or (set xs i v) i 0 ≡ v
get_or-set [] i v h = absurd (omega arith)
get_or-set (x ∷ xs) zero v h = refl
get_or-set (x ∷ xs) (suc i) v h = get_or-set xs i v (omega arith)

if_true {κ} : {A : Type κ} {b : Bool} (x y : A) → b ≡ true → (if b then x else y) ≡ x
if_true {b = true} x y e = refl
if_true {b = false} x y e = absurd (ground arith)

if_false {κ} : {A : Type κ} {b : Bool} (x y : A) → b ≡ false → (if b then x else y) ≡ y
if_false {b = false} x y e = refl
if_false {b = true} x y e = absurd (ground arith)

set-twice {κ} : {A : Type κ} (xs : List A) (i : ℕ) (a b : A) → set (set xs i a) i b ≡ set xs i b
set-twice [] i a b = refl
set-twice (x ∷ xs) zero a b = refl
set-twice (x ∷ xs) (suc i) a b = ap (λ l. x ∷ l) (set-twice xs i a b)

module _ {ℓ} {V : Type ℓ} where
  -- The block `index` goes to the free ones by `run`, and is taken from them.
  pub record Reused (t : Tree V) (run : Option (Tree V)) (index : ℕ) : Type ℓ where
    pub t' : Tree V
    pub t'' : Tree V
    pub given : run ≡ some t'
    pub taken : get_new_block_index t' ≡ some (index, t'')
    pub same : t''.deleted_blocks_size ≡ t.deleted_blocks_size

  as_record-block :
      (o : Option (Block V)) {r : ℕ × ℕ × List ℕ}
      → as_record o ≡ some r
      → (b : Block V) × (o ≡ some b)
  as_record-block none e = absurd (ground arith)
  as_record-block (some b) e = (b, refl)

  -- The record block before the one in use, where that is needed.
  abbrev HasBefore : Tree V → (last : ℕ) → Type 0
  HasBefore t last =
      (last ≢ 0
        → (last ≢ t.deleted_record_index) × (r : ℕ × ℕ × List ℕ) × (get_record t last ≡ some r))

  -- An emptied record block is left for the one before it.
  leave :
      (t : Tree V) (last n : ℕ) (b : Block V)
      → (n ≡ 0 → HasBefore t last)
      → (t' : Tree V) → (t'.blocks ≡ set t.blocks t.deleted_record_index b)
      → (t2 : Tree V) × ((if ltb 0 n then some t' else leave_record last t') ≡ some t2)
        × (t2.deleted_blocks_size ≡ t'.deleted_blocks_size)
  unfolding leave_record
  leave t last (suc n) b h t' e =
      let more : ltb 0 (suc n) ≡ true = ground arith in (t', rw more refl, refl)
  leave t zero zero b h t' e =
      (record t' { deleted_record_index = 0; has_record = false }, refl, refl)
  leave t (suc last) zero b h t' e =
      let q = h refl (λ z. absurd (omega (arith, z))) in
      let other = get_elem?-set_ne t.blocks b (λ z. q.0 (sym z)) in
      let there : get_record t' (suc last) ≡ some q.1 =
        ap (λ bs. as_record (get_elem? bs (suc last))) e ∙ ap as_record other ∙ q.2 in
      let no : (suc last == 0) ≡ false = ground arith in
      (record t' { deleted_record_index = suc last }, rw (no, there) refl, refl)

  record_add-Reused :
      (t : Tree V) (index last n : ℕ) (slots : List ℕ)
      → t.has_record ≡ true
      → get_record t t.deleted_record_index ≡ some (last, n, slots)
      → n < length slots
      → (n ≡ 0 → HasBefore t last)
      → Reused t (record_add index t) index
  unfolding record_add get_new_block_index
  record_add-Reused t index last n slots on got h b =
      let i = t.deleted_record_index in
      let some_block = as_record-block (get_elem? t.blocks i) got in
      let inside = get_elem?-lt t.blocks i some_block.1 in
      let block : Block V = record_block last (suc n) (set slots n index) in
      let t1 : Tree V = record (put t i block) {
        deleted_blocks_size = suc t.deleted_blocks_size;
      } in
      let self = get_elem?-set_self t.blocks i block inside in
      let number = get_or-set slots n index h in
      let emptied : Block V = record_block last n (set (set slots n index) n 0) in
      let t2 : Tree V = put t1 i emptied in
      let open_record : not t.has_record ≡ false = ap not on in
      let more : ltb 0 (suc n) ≡ true = ground arith in
      let less : suc n - 1 ≡ n = omega arith in
      let r = leave t last n emptied b t2 (set-twice t.blocks i block emptied) in
      record {
        t' = t1;
        t'' = record r.0 { deleted_blocks_size = r.0.deleted_blocks_size - 1 };
        given = rw got refl;
        taken = rw (open_record, self, more, less, number, r.1) refl;
        same = ap (λ m. m - 1) r.2 ∙ omega arith;
      }

  -- The record block in use has a number, and room for one more or a number of another block, which
  -- then becomes the record block.
  abbrev pub RecordReady : Tree V → Type 0
  RecordReady t =
      (last : ℕ) × (n : ℕ) × (slots : List ℕ) × (get_record t t.deleted_record_index
        ≡ some (last, n, slots))
      × (0 < n)
      × (length slots ≡ record_room)
      × (n < record_room
          ⊎ ((n ≡ record_room)
              × (get_or slots (n - 1) 0 < length t.blocks)
              × (get_or slots (n - 1) 0 ≢ t.deleted_record_index)))

  -- What the lists of free blocks promise: there is room for one more number, and where a block
  -- becomes the new record block, it is in the file and not the record block in use.
  pub record IsReady (t : Tree V) : Type ℓ where
    pub head_room :
        t.has_record ≡ false
        → can_add_deleted_block t ≡ true
        → t.deleted_blocks_size < length t.slots
    pub head_full :
        t.has_record ≡ false
        → can_add_deleted_block t ≡ false
        → get_or t.slots (t.deleted_blocks_size - 1) 0 < length t.blocks
    pub in_record : t.has_record ≡ true → RecordReady t

  new_record-Reused :
      (t : Tree V) (index new last : ℕ)
      → new < length t.blocks
      → (last ≢ 0 → (last ≢ new) × (r : ℕ × ℕ × List ℕ) × (get_record t last ≡ some r))
      → Reused t (do t' ← new_record new last t; record_add index t') index
  unfolding new_record
  new_record-Reused t index new last h b =
      let b0 = get_elem?-inside t.blocks new h in
      let fresh : Block V = record_block last 0 (replicate record_room 0) in
      let t' : Tree V = record (put t new fresh) {
        deleted_record_index = new;
        has_record = true;
        begin_record_block_index = new;
      } in
      let self = ap as_record (get_elem?-set_self t.blocks new fresh h) in
      let room : 0 < length {A = ℕ} (replicate record_room 0) =
        subst (λ m. 0 < m) (sym (length-replicate {A = ℕ} record_room 0)) (omega arith) in
      let r = record_add-Reused t' index last 0 (replicate record_room 0) refl self room (λ _ z.
        let q = b z in
        (q.0, q.1, ap as_record (get_elem?-set_ne t.blocks fresh (λ y. q.0 (sym y))) ∙ q.2)) in
      record { t' = r.t'; t'' = r.t''; given = rw (b0.1) r.given; taken = r.taken; same = r.same }

  head_add-Reused :
      (t : Tree V) (index : ℕ)
      → t.has_record ≡ false
      → t.deleted_blocks_size < length t.slots
      → Reused t (some (head_add index t)) index
  unfolding get_new_block_index head_pop
  head_add-Reused t index off h =
      let closed : not t.has_record ≡ true = ap not off in
      let less : suc t.deleted_blocks_size - 1 ≡ t.deleted_blocks_size = omega arith in
      let number = get_or-set t.slots t.deleted_blocks_size index h in
      record {
        t' = head_add index t;
        t'' = (head_pop (head_add index t)).1;
        given = refl;
        taken = rw (closed, less, number) refl;
        same = less;
      }

  in_record :
      (t : Tree V) (index : ℕ) (on : t.has_record ≡ true)
      → RecordReady t
      → Reused t (give_back index t) index
  unfolding give_back
  in_record t index on (last, n, slots, got, pos, len, inl l) =
      let room : ltb n record_room ≡ true = ground arith in
      subst (λ o. Reused t o index) (sym (if_true _ _ on ∙ rw (got, room) refl))
        (record_add-Reused t index last n slots on got (subst (λ m. n < m) (sym len) l)
          (λ z. absurd (omega (arith, z))))
  in_record t index on (last, n, slots, got, pos, len, inr (full, h, ne)) =
      let room : ltb n record_room ≡ false = ground arith in
      subst (λ o. Reused t o index) (sym (if_true _ _ on ∙ rw (got, room) refl))
        (new_record-Reused t index (get_or slots (n - 1) 0) t.deleted_record_index h
          (λ _. ((λ e. ne (sym e)), (last, n, slots), got)))

  -- A block that is given back is the next one that is taken, and then as many blocks are free as
  -- before: whether its number goes to the head block, to the record block in use, or to a block that
  -- becomes the record block because there is no room left.
  pub give_back-Reused : (t : Tree V) (index : ℕ) → IsReady t → Reused t (give_back index t) index
  unfolding give_back
  give_back-Reused t index r = elim (Bool-cases t.has_record) [
    | inl on ↦ in_record t index on (r.in_record on)
    | inr off ↦ elim (Bool-cases (can_add_deleted_block t)) [
      | inl can ↦
          subst (λ o. Reused t o index) (sym (if_false _ _ off ∙ if_true _ _ can))
            (head_add-Reused t index off (r.head_room off can))
      | inr full ↦
          subst (λ o. Reused t o index) (sym (if_false _ _ off ∙ if_false _ _ full))
            (new_record-Reused t index (get_or t.slots (t.deleted_blocks_size - 1) 0) 0
              (r.head_full off full) (λ z. absurd (z refl)))
    ]
  ]
