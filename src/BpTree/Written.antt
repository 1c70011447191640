-- ===== src/BpTree/Written.antt =====
-- Base/BPTree_impls/DataBlock_Impl.hpp: the writes of `split` of a data block into the store.
use tiny_backend.Prelude.{
  ℕ, zero, suc, ◌≤◌, ◌<◌, ◌≡◌, ◌≢◌, refl, sym, ap, ◌∙◌, false, none, some, List, [], ◌∷◌, ◌++◌,
  length, length-append, get_elem?, set, length-set, get_elem?-set_self, get_elem?-set_ne, lt→ltb,
  arith,
}
use tiny_backend.BpTree.{Block, data_block}
use tiny_backend.BpTree.Pairs.{split}
use tiny_backend.BpTree.Store.{Tree, empty_data, set_prev}
use tiny_backend.BpTree.Free.{create_block}
use tiny_backend.BpTree.Insert.{link_split, split_data}
use tiny_backend.BpTree.Rows.{head_or, has, block, IsRow, get_inside}
use tiny_backend.BpTree.Parted.{Parted}

ne_of_lt : (i n : ℕ) → i < n → n ≡ i → ⊥
ne_of_lt i n h e = omega arith

positive : (n : ℕ) → n ≢ 0 → 0 < n
positive zero h = absurd (h refl)
positive (suc n) h = omega arith

module _ {ℓ} {A : Type ℓ} where
  pub get-append_left :
      (xs ys : List A) (i : ℕ) → i < length xs → get_elem? (xs ++ ys) i ≡ get_elem? xs i
  get-append_left [] ys i h = absurd (omega arith)
  get-append_left (x ∷ xs) ys zero h = refl
  get-append_left (x ∷ xs) ys (suc i) h = get-append_left xs ys i (omega arith)

  pub get-append_last : (xs : List A) (y : A) → get_elem? (xs ++ y ∷ []) (length xs) ≡ some y
  get-append_last [] y = refl
  get-append_last (x ∷ xs) y = get-append_last xs y

  pub get-append_ne :
      (xs : List A) (y : A) (i : ℕ) → i ≢ length xs → get_elem? (xs ++ y ∷ []) i ≡ get_elem? xs i
  get-append_ne [] y zero h = absurd (h refl)
  get-append_ne [] y (suc i) h = refl
  get-append_ne (x ∷ xs) y zero h = refl
  get-append_ne (x ∷ xs) y (suc i) h = get-append_ne xs y i (λ e. h (ap suc e))

  pub get_past : (xs : List A) (i : ℕ) → length xs ≤ i → get_elem? xs i ≡ none
  get_past [] i h = refl
  get_past (x ∷ xs) zero h = absurd (omega arith)
  get_past (x ∷ xs) (suc i) h = get_past xs i (omega arith)

module _ {ℓ} {V : Type ℓ} where
  -- In a tree without deleted blocks a new block comes behind the others.
  pub create-fresh :
      (b : Block V) (t : Tree V)
      → t.deleted_blocks_size ≡ 0
      → create_block b t
        ≡ some (
          length t.blocks,
          record t { valid_blocks_size = suc t.valid_blocks_size; blocks = t.blocks ++ (b ∷ []) },
        )
  unfolding create_block
  create-fresh b t e = rw e refl

  -- The store after the two blocks of a split were written, with `m` the new one.
  abbrev pub written : List (Block V) → (p n i : ℕ) (ls rs : List (ℕ × V)) → List (Block V)
  written bs p n i ls rs =
      set (set (bs ++ (data_block empty_data ∷ [])) i (block p (length bs) ls)) (length bs)
        (block i n rs)

  record Writes (bs : List (Block V)) (p n i : ℕ) (ls rs : List (ℕ × V)) : Type ℓ where
    left : get_elem? (written bs p n i ls rs) i ≡ some (block p (length bs) ls)
    right : get_elem? (written bs p n i ls rs) (length bs) ≡ some (block i n rs)
    others : (j : ℕ) → j ≢ i → j ≢ length bs → get_elem? (written bs p n i ls rs) j ≡ get_elem? bs j
    size : length (written bs p n i ls rs) ≡ suc (length bs)

  written-Writes :
      (bs : List (Block V)) (p n i : ℕ) (ls rs : List (ℕ × V))
      → i < length bs
      → Writes bs p n i ls rs
  written-Writes bs p n i ls rs h =
      let e : Block V = data_block empty_data in
      let bs' = bs ++ (e ∷ []) in
      let size : length bs' ≡ suc (length bs) = omega (arith, length-append bs (e ∷ [])) in
      let first = length-set bs' i (block p (length bs) ls) in
      record {
        left =
            get_elem?-set_ne _ (block i n rs) (ne_of_lt i (length bs) h)
            ∙ get_elem?-set_self bs' i (block p (length bs) ls) (omega arith);
        right = get_elem?-set_self _ (length bs) (block i n rs) (omega arith);
        others = λ j x y.
            get_elem?-set_ne _ (block i n rs) (λ q. y (sym q))
            ∙ get_elem?-set_ne bs' (block p (length bs) ls) (λ q. x (sym q))
            ∙ get-append_ne bs e j y;
        size = length-set _ (length bs) (block i n rs) ∙ first ∙ size;
      }

  -- `link_split` after those writes.
  record Linked (t : Tree V) (bs : List (Block V)) (p n i : ℕ) (ls rs : List (ℕ × V))
      (after : List (ℕ × List (ℕ × V))) : Type ℓ where
    blocks : List (Block V)
    size : length blocks ≡ suc (length bs)
    ran : link_split t i (length bs) (head_or n after) ≡ some (record t { blocks = blocks })
    parted : Parted bs blocks p n i (length bs) ls rs after

  link_split-Linked :
      (t : Tree V) (bs : List (Block V)) (p i : ℕ) (ls rs : List (ℕ × V))
      (after : List (ℕ × List (ℕ × V)))
      → t.blocks ≡ written bs p (head_or 0 after) i ls rs
      → i < length bs
      → has i after ≡ false
      → IsRow bs i 0 after
      → Linked t bs p 0 i ls rs after
  unfolding link_split set_prev
  link_split-Linked t bs p i ls rs [] e h a r =
      let w = written-Writes bs p 0 i ls rs h in
      record {
        blocks = t.blocks;
        size = ap length e ∙ w.size;
        ran = refl;
        parted = record {
          fresh = get_past bs (length bs) (omega arith);
          left = ap (λ b. get_elem? b i) e ∙ w.left;
          right = ap (λ b. get_elem? b (length bs)) e ∙ w.right;
          behind = tt;
          others = λ j x y z. ap (λ b. get_elem? b j) e ∙ w.others j x y;
        };
      }
  link_split-Linked t bs p i ls rs (l ∷ after) e h a r =
      let w = written-Writes bs p l.0 i ls rs h in
      let inside = get_inside bs l.0 r.0 in
      let other : (l.0 ≡ i → ⊥) = λ q. absurd (ground (arith, q, a)) in
      let old : (l.0 ≡ length bs → ⊥) = λ q. ne_of_lt l.0 (length bs) inside (sym q) in
      let here = ap (λ b. get_elem? b l.0) e ∙ w.others l.0 other old ∙ r.0 in
      let b = block (length bs) (head_or 0 after) l.1 in
      record {
        blocks = set t.blocks l.0 b;
        size = length-set t.blocks l.0 b ∙ ap length e ∙ w.size;
        ran = rw (lt→ltb 0 l.0 (positive l.0 r.1), here) refl;
        parted = record {
          fresh = get_past bs (length bs) (omega arith);
          left = get_elem?-set_ne t.blocks b other ∙ ap (λ b. get_elem? b i) e ∙ w.left;
          right = get_elem?-set_ne t.blocks b old ∙ ap (λ b. get_elem? b (length bs)) e ∙ w.right;
          behind = get_elem?-set_self t.blocks l.0 b (omega (arith, ap length e ∙ w.size));
          others = λ j x y z.
              get_elem?-set_ne t.blocks b (λ q. z (sym q))
              ∙ ap (λ b. get_elem? b j) e
              ∙ w.others j x y;
        };
      }

  -- A new block, and the split of block `i` into it.
  pub record Splits (t : Tree V) (p i : ℕ) (ps : List (ℕ × V)) (k : ℕ) (v : V)
      (after : List (ℕ × List (ℕ × V))) : Type ℓ where
    pub t' : Tree V
    pub t1 : Tree V
    pub created : create_block (data_block empty_data) t ≡ some (length t.blocks, t1)
    pub ran : split_data t1 i (length t.blocks) k v ≡ some t'
    pub parted :
        Parted t.blocks t'.blocks p 0 i (length t.blocks) (split ps k v).0 (split ps k v).1 after
    pub none_free : t'.deleted_blocks_size ≡ 0
    pub same_begin : t'.begin_block_index ≡ t.begin_block_index
    pub size : length t'.blocks ≡ suc (length t.blocks)

  pub split_data-Splits :
      (t : Tree V) (p i : ℕ) (ps : List (ℕ × V)) (k : ℕ) (v : V) (after : List (ℕ × List (ℕ × V)))
      → t.deleted_blocks_size ≡ 0
      → get_elem? t.blocks i ≡ some (block p (head_or 0 after) ps)
      → has i after ≡ false
      → IsRow t.blocks i 0 after
      → Splits t p i ps k v after
  unfolding split_data
  split_data-Splits t p i ps k v after z e a r =
      let inside = get_inside t.blocks i e in
      let n = head_or 0 after in
      let b : Block V = data_block empty_data in
      let t1 = record t {
        valid_blocks_size = suc t.valid_blocks_size;
        blocks = t.blocks ++ (b ∷ []);
      } in
      let old = get-append_left t.blocks (b ∷ []) i inside ∙ e in
      let new = get-append_last t.blocks b in
      let t2 = record t1 { blocks = written t.blocks p n i (split ps k v).0 (split ps k v).1 } in
      let l =
        link_split-Linked t2 t.blocks p i (split ps k v).0 (split ps k v).1 after refl inside a r in
      record {
        t' = record t2 { blocks = l.blocks };
        t1 = t1;
        created = create-fresh b t z;
        ran = rw (old, new) l.ran;
        parted = l.parted;
        none_free = z;
        same_begin = refl;
        size = l.size;
      }
