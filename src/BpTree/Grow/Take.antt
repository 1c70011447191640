-- ===== src/BpTree/Grow/Take.antt =====
-- Base/BPTree_impls/BPTree.hpp: what an index block does with the block that was split off below it.
use mathlib.Core.Path.{subst}
use tiny_backend.Prelude.{
  ℕ, suc, ◌+◌, ◌/◌, ◌≤◌, ◌<◌, ◌≡◌, ◌≢◌, refl, sym, ap, ◌∙◌, inl, inr, none, some, List, [], ◌∷◌,
  ◌++◌, map, length, length-append, take, drop, take-append-drop, length-take, length-drop,
  get_elem?, set, length-set, get_elem?-set_self, get_elem?-set_ne, Bool-cases, arith,
}
use tiny_backend.BpTree.{Block, Layout, index_block}
use tiny_backend.BpTree.Pairs.{insert}
use tiny_backend.BpTree.Store.{Tree, as_index, put}
use tiny_backend.BpTree.Free.{create_index_block}
use tiny_backend.BpTree.Insert.{success, can_insert_index, take_in}
use tiny_backend.BpTree.Shape.{concat_map, All, Shape, root, entry}
use tiny_backend.BpTree.Reach.{entries-IsSorted, All-Heads}
use tiny_backend.BpTree.Written.{create-fresh, get-append_left}
use tiny_backend.BpTree.Nodes.{inodes, Keeps, index_inside}
use tiny_backend.BpTree.Grow.Made.{Row, Good, Inserts}
use tiny_backend.BpTree.Grow.Child.{All-left, All-right, Regrown}
use tiny_backend.BpTree.Grow.Finish.{Rewritten, Written, Written-one, Written-two}
use tiny_backend.BpTree.Grow.Entries.{entry-after, entry-split, Good-Headed}

module _ {ℓ} (V : Type ℓ) where
  set-Rewritten : (bs : List (Block V)) (i : ℕ) (b : Block V) → Rewritten V bs (set bs i b) i
  set-Rewritten bs i b = record {
    others = λ j n _. get_elem?-set_ne bs b (λ q. n (sym q));
    grows = omega (arith, length-set bs i b);
  }

  twice-Rewritten :
      (bs : List (Block V)) (i : ℕ) (b c : Block V) → Rewritten V bs (set (set bs i b) i c) i
  twice-Rewritten bs i b c = record {
    others = λ j n _.
        get_elem?-set_ne (set bs i b) c (λ q. n (sym q)) ∙ get_elem?-set_ne bs b (λ q. n (sym q));
    grows = omega (arith, length-set bs i b, length-set (set bs i b) i c);
  }

  -- The store after a split of index block `i`: the new block is behind the others.
  abbrev halved : List (Block V) → (i : ℕ) → (e es fs : List (ℕ × ℕ)) → List (Block V)
  halved bs i e es fs =
      set (set (set bs i (index_block e) ++ (index_block [] ∷ [])) i (index_block es))
        (length (set bs i (index_block e))) (index_block fs)

  record Halved (bs : List (Block V)) (i : ℕ) (e es fs : List (ℕ × ℕ)) : Type ℓ where
    rewritten : Rewritten V bs (halved bs i e es fs) i
    left : get_elem? (halved bs i e es fs) i ≡ some (index_block es)
    right : get_elem? (halved bs i e es fs) (length bs) ≡ some (index_block fs)
    new : length (set bs i (index_block e)) ≡ length bs

  Halved-Halved :
      (bs : List (Block V)) (i : ℕ) (e es fs : List (ℕ × ℕ)) → i < length bs → Halved bs i e es fs
  Halved-Halved bs i e es fs h =
      let b1 = set bs i (index_block e) in
      let n1 = length-set bs i (index_block e) in
      let b2 = b1 ++ (index_block [] ∷ []) in
      let n2 = length-append b1 (index_block [] ∷ []) in
      let b3 = set b2 i (index_block es) in
      let n3 = length-set b2 i (index_block es) in
      record {
        rewritten = record {
          others = λ j n l.
              get_elem?-set_ne b3 (index_block fs) (λ q. absurd (omega (arith, q, l, n1)))
              ∙ get_elem?-set_ne b2 (index_block es) (λ q. n (sym q))
              ∙ get-append_left b1 (index_block [] ∷ []) j (omega (arith, l, n1))
              ∙ get_elem?-set_ne bs (index_block e) (λ q. n (sym q));
          grows = omega (arith, n1, n2, n3, length-set b3 (length b1) (index_block fs));
        };
        left =
            get_elem?-set_ne b3 (index_block fs) (λ q. absurd (omega (arith, q, h, n1)))
            ∙ get_elem?-set_self b2 i (index_block es) (omega (arith, h, n1, n2));
        right =
            ap (get_elem? (halved bs i e es fs)) (sym n1)
            ∙ get_elem?-set_self b3 (length b1) (index_block fs) (omega (arith, n1, n2, n3));
        new = n1;
      }

  -- What is known behind the insertion into a child.
  pub record Behind (t t1 : Tree V) (h : ℕ) (s : Shape V (suc h)) : Type 0 where
    pub was : List (ℕ × ℕ)
    pub was_index : as_index (get_elem? t1.blocks s.0) ≡ some was
    pub keeps : Keeps V t.blocks t1.blocks (concat_map (λ c. inodes V h c.1) s.1)
    pub grows : length t.blocks ≤ length t1.blocks
    pub none_free : t1.deleted_blocks_size ≡ 0
    pub same_begin : t1.begin_block_index ≡ t.begin_block_index

  module _ (l : Layout) (t t1 : Tree V) (before after : Row V) (h : ℕ) (s : Shape V (suc h)) (k : ℕ)
      (v : V) (b : Behind t t1 h s) (xs : List (ℕ × Shape V h)) (c : ℕ × Shape V h)
      (ys : List (ℕ × Shape V h)) where
    write :
        (cs : List (ℕ × Shape V h)) (t2 : Tree V)
        → Regrown V t t1 before after h s k v cs
        → Rewritten V t1.blocks t2.blocks s.0
        → t2.deleted_blocks_size ≡ t1.deleted_blocks_size
        → t2.begin_block_index ≡ t1.begin_block_index
        → Written V t t1 t2 before after h s k v cs
    write cs t2 r w e e' = record {
      regrown = r;
      was = b.was;
      was_index = b.was_index;
      keeps = b.keeps;
      grows = b.grows;
      rewritten = w;
      none_free = e ∙ b.none_free;
      same_begin = e' ∙ b.same_begin;
    }

    nonempty : (zs : List (ℕ × Shape V h)) → xs ++ c ∷ zs ≢ []
    nonempty zs e = absurd (omega (arith, length-append xs (c ∷ zs), ap length e))

    pub take_none :
        Regrown V t t1 before after h s k v (xs ++ c ∷ ys)
        → Inserts V
            (take_in l s.0
              (map (entry V h) (xs ++ c ∷ ys))
              (length xs)
              (success, none, put t1 s.0 (index_block (map (entry V h) (xs ++ c ∷ ys)))))
            t
            before
            after
            (suc h)
            s
            k
            v
    unfolding take_in
    take_none r =
        let e = map (entry V h) (xs ++ c ∷ ys) in
        let t2 = put t1 s.0 (index_block e) in
        let head = Good-Headed V h (xs ++ c ∷ ys) (nonempty ys) r.good in
        record {
          up = none;
          t' = t2;
          ran = refl;
          grown =
              Written-one V t t1 t2 before after h s k v (xs ++ c ∷ ys)
                (write (xs ++ c ∷ ys) t2 r (set-Rewritten t1.blocks s.0 (index_block e)) refl refl)
                head.key
                (ap as_index (
                  get_elem?-set_self t1.blocks s.0 (index_block e)
                    (index_inside V t1.blocks s.0 b.was_index)))
                head.in_contents;
        }

    pub take_some :
        (d : ℕ × Shape V h)
        → Regrown V t t1 before after h s k v (xs ++ c ∷ d ∷ ys)
        → Inserts V
            (take_in l s.0 (map (entry V h) (xs ++ c ∷ ys)) (length xs) (
              success,
              some (root V h d.1, d.0),
              put t1 s.0 (index_block (map (entry V h) (xs ++ c ∷ ys))),
            ))
            t
            before
            after
            (suc h)
            s
            k
            v
    unfolding take_in create_index_block
    take_some d r =
        let cs = xs ++ c ∷ d ∷ ys in
        let e = map (entry V h) (xs ++ c ∷ ys) in
        let es = map (entry V h) cs in
        let inside = index_inside V t1.blocks s.0 b.was_index in
        let t1' = put t1 s.0 (index_block e) in
        elim (Bool-cases (can_insert_index l (length e))) [
          | inl q ↦
              let es' = insert e (suc (length xs)) d.0 (root V h d.1) in
              let t2 = put t1' s.0 (index_block es') in
              let head = Good-Headed V h cs (nonempty (d ∷ ys)) r.good in
              let inside' : s.0 < length (set t1.blocks s.0 (index_block e)) =
                omega (arith, inside, length-set t1.blocks s.0 (index_block e)) in
              record {
                up = none;
                t' = t2;
                ran = rw q refl;
                grown =
                    Written-one V t t1 t2 before after h s k v cs
                      (write cs t2 r
                        (twice-Rewritten t1.blocks s.0 (index_block e) (index_block es')) refl refl)
                      head.key
                      (ap as_index (get_elem?-set_self _ s.0 (index_block es') inside')
                        ∙ ap some (entry-after V h xs c d ys))
                      head.in_contents;
              }
          | inr q ↦
              let half : ℕ = (length (xs ++ c ∷ ys) + 1) / 2 in
              let ls = map (entry V h) (take half cs) in
              let rs = map (entry V h) (drop half cs) in
              let both =
                entry-split V h xs c d ys
                  (entries-IsSorted V h cs (All-Heads V h cs r.good) r.sorted) in
              let x = Halved-Halved t1.blocks s.0 e ls rs inside in
              let t2 = record t1 {
                valid_blocks_size = suc t1.valid_blocks_size;
                blocks = halved t1.blocks s.0 e ls rs;
              } in
              let size = length-append xs (c ∷ ys) in
              let size' = length-append xs (c ∷ d ∷ ys) in
              let left =
                Good-Headed V h (take half cs)
                  (λ w. absurd (omega (arith, length-take half cs, ap length w, size, size')))
                  (All-left (Good V h) (take half cs) (drop half cs)
                    (subst (All (Good V h)) (sym (take-append-drop half cs)) r.good)) in
              let right =
                Good-Headed V h (drop half cs)
                  (λ w. absurd (omega (arith, length-drop half cs, ap length w, size, size')))
                  (All-right (Good V h) (take half cs) (drop half cs)
                    (subst (All (Good V h)) (sym (take-append-drop half cs)) r.good)) in
              record {
                up = some (length t1.blocks, right.key);
                t' = t2;
                ran =
                    rw (q, create-fresh (index_block []) t1' b.none_free, both, right.in_entries)
                      (ap (λ n. some (success, some (n, right.key), t2)) x.new);
                grown =
                    Written-two V t t1 t2 before after h s k v cs
                      (write cs t2 r x.rewritten refl refl) half left.key right.key
                      (ap as_index x.left) (ap as_index x.right) left.in_contents right.in_contents;
              }
        ]
