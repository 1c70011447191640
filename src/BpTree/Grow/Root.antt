-- ===== src/BpTree/Grow/Root.antt =====
-- Base/BPTree_impls/BPTree.hpp: `insert`, with a new root where the old one was split.
use mathlib.Core.Path.{subst}
use mathlib.Core.List.{append-nil}
use tiny_backend.Prelude.{
  ℕ, zero, suc, ◌≤◌, ◌<◌, ◌≡◌, ◌≢◌, refl, sym, ap, ◌∙◌, inl, inr, ◌⊎◌, some, List, [], ◌∷◌, ◌++◌,
  map, length, length-append, length-set, get_elem?, set, get_elem?-set_self, get_elem?-set_ne,
  Bool-cases, arith,
}
use tiny_backend.BpTree.{Block, index_block}
use tiny_backend.BpTree.Bound.{IsSorted}
use tiny_backend.BpTree.Store.{Tree, as_index}
use tiny_backend.BpTree.Insert.{root_key}
use tiny_backend.BpTree.Shape.{concat_map, All, Shape, root, contents, leaves, entry, IsOrdered}
use tiny_backend.BpTree.Reach.{contents-leaves, is_data-index}
use tiny_backend.BpTree.Rows.{IsRow, IsRow-frame, get_inside}
use tiny_backend.BpTree.Written.{get-append_left}
use tiny_backend.BpTree.Nodes.{
  inside, Distinct, inodes, IsNodes, IsNodes-frame_all, IsNodes-lt_all, index_inside,
}
use tiny_backend.BpTree.Grow.Made.{Context, Good}
use tiny_backend.BpTree.Grow.Entries.{Good-Headed}

module _ {ℓ} (V : Type ℓ) where
  -- The tree was built by insertions and holds the pairs, on at most `n` levels of index blocks.
  pub record Built (n : ℕ) (t : Tree V) (all : List (ℕ × V)) : Type ℓ where
    pub none_free : t.deleted_blocks_size ≡ 0
    pub positive : 0 < length t.blocks
    pub tree :
        ((t.begin_block_index ≡ 0) × (all ≡ []))
        ⊎ ((h : ℕ) × (s : Shape V h) × Context V t [] [] h s
            × (t.begin_block_index ≡ root V h s)
            × (t.begin_block_index ≢ 0)
            × (h ≤ n)
            × (all ≡ contents V h s))

  pub IsSorted-row :
      (h : ℕ) (s : Shape V h)
      → IsSorted (contents V h s)
      → IsSorted (concat_map (λ l. l.1) (leaves V h s ++ []))
  IsSorted-row h s o =
      subst IsSorted
        (contents-leaves V h s ∙ ap (concat_map (λ l. l.1)) (sym (append-nil (leaves V h s)))) o

  pub IsOrdered-IsSorted : (h : ℕ) (s : Shape V h) → IsOrdered V h s → IsSorted (contents V h s)
  IsOrdered-IsSorted zero s o = o.0
  IsOrdered-IsSorted (suc h) s o = o.0

  -- The root after an insertion that did not split it.
  pub same_root-Context :
      (t t' : Tree V) (h : ℕ) (s : Shape V h) (k : ℕ) (v : V) (first : ℕ × Shape V h)
      → Context V t [] [] h s
      → All (λ c. IsNodes V t'.blocks h c.1) (first ∷ [])
      → IsRow t'.blocks 0 0 (concat_map (λ c. leaves V h c.1) (first ∷ []) ++ [])
      → All (Good V h) (first ∷ [])
      → Distinct (concat_map (λ c. inodes V h c.1) (first ∷ []))
      → t'.deleted_blocks_size ≡ 0
      → length t.blocks ≤ length t'.blocks
      → Context V t' [] [] h first.1
  same_root-Context t t' h s k v first c n r g d f le = record {
    none_free = f;
    positive = omega (arith, c.positive, le);
    nodes = n.0;
    row = subst (λ l. IsRow t'.blocks 0 0 (l ++ [])) (append-nil (leaves V h first.1)) r;
    sorted = IsSorted-row h first.1 (IsOrdered-IsSorted h first.1 g.0.0);
    ordered = g.0.0;
    distinct = subst Distinct (append-nil (inodes V h first.1)) d;
  }

  -- The first key of the block at the root, with a new block behind the others.
  pub root_key-appended :
      (t : Tree V) (h : ℕ) (c : ℕ × Shape V h) (rest : List (ℕ × Shape V h))
      → IsNodes V t.blocks h c.1
      → IsRow t.blocks 0 0 (concat_map (λ c. leaves V h c.1) (c ∷ rest) ++ [])
      → Good V h c
      → root_key
          (record t {
            valid_blocks_size = suc t.valid_blocks_size;
            blocks = t.blocks ++ (index_block [] ∷ []);
          })
          (root V h c.1)
        ≡ some c.0
  unfolding root_key
  root_key-appended t zero (a, (i, ps)) rest n r g =
      let e = get-append_left t.blocks (index_block [] ∷ []) i (get_inside t.blocks i r.0) ∙ r.0 in
      rw (e, e) g.1
  root_key-appended t (suc h) (a, (i, cs)) rest n r g =
      let head = Good-Headed V h cs g.0.1 g.0.2 in
      let bs = t.blocks ++ (index_block [] ∷ []) in
      let e =
        ap as_index
          (get-append_left t.blocks (index_block [] ∷ []) i (index_inside V t.blocks i n.0))
        ∙ n.0 in
      rw (is_data-index (get_elem? bs i) e, e) (head.in_entries ∙ sym head.in_contents ∙ g.1)

  -- The store with a block behind the others.
  abbrev pub with_root : List (Block V) → List (ℕ × ℕ) → List (Block V)
  with_root bs es = set (bs ++ (index_block [] ∷ [])) (length bs) (index_block es)

  pub with_root-keeps :
      (bs : List (Block V)) (es : List (ℕ × ℕ)) (j : ℕ)
      → j < length bs
      → get_elem? (with_root bs es) j ≡ get_elem? bs j
  with_root-keeps bs es j h =
      get_elem?-set_ne (bs ++ (index_block [] ∷ [])) (index_block es)
        (λ q. absurd (omega (arith, q, h)))
      ∙ get-append_left bs (index_block [] ∷ []) j h

  with_root-new :
      (bs : List (Block V)) (es : List (ℕ × ℕ))
      → get_elem? (with_root bs es) (length bs) ≡ some (index_block es)
  with_root-new bs es =
      get_elem?-set_self (bs ++ (index_block [] ∷ [])) (length bs) (index_block es)
        (omega (arith, length-append bs (index_block [] ∷ [])))

  pub with_root-Context :
      (t t' : Tree V) (h : ℕ) (cs : List (ℕ × Shape V h))
      → t'.blocks ≡ with_root t.blocks (map (entry V h) cs)
      → t'.deleted_blocks_size ≡ 0
      → All (λ c. IsNodes V t.blocks h c.1) cs
      → IsRow t.blocks 0 0 (concat_map (λ c. leaves V h c.1) cs ++ [])
      → All (Good V h) cs
      → cs ≢ []
      → IsSorted (concat_map (λ c. contents V h c.1) cs)
      → Distinct (concat_map (λ c. inodes V h c.1) cs)
      → Context V t' [] [] (suc h) (length t.blocks, cs)
  with_root-Context t t' h cs e f n r g ne s d =
      let es = map (entry V h) cs in
      let size =
        ap length e
        ∙ length-set (t.blocks ++ (index_block [] ∷ [])) (length t.blocks) (index_block es)
        ∙ length-append t.blocks (index_block [] ∷ []) in
      record {
        none_free = f;
        positive = omega (arith, size);
        nodes = (
          ap (λ bs. as_index (get_elem? bs (length t.blocks))) e
              ∙ ap as_index (with_root-new t.blocks es),
          IsNodes-frame_all V t.blocks t'.blocks [] h cs
              (λ j es' _ w.
                ap (λ bs. as_index (get_elem? bs j)) e
                ∙ ap as_index (with_root-keeps t.blocks es j (index_inside V t.blocks j w))
                ∙ w)
              (λ j i. refl) n,
        );
        row =
            IsRow-frame t.blocks t'.blocks 0 0 _
              (λ j b _ w.
                ap (λ bs. get_elem? bs j) e
                ∙ with_root-keeps t.blocks es j (get_inside t.blocks j w)
                ∙ w)
              r;
        sorted = IsSorted-row (suc h) (length t.blocks, cs) s;
        ordered = (s, ne, g);
        distinct = (
          elim (Bool-cases (inside (length t.blocks) (concat_map (λ c. inodes V h c.1) cs))) [
            | inl q ↦ absurd (omega (arith, IsNodes-lt_all V t.blocks h cs n (length t.blocks) q))
            | inr q ↦ q
          ],
          d,
        );
      }
