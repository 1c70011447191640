-- ===== src/BpTree/Grow/Node.antt =====
-- Base/BPTree_impls/BPTree.hpp: `insert_impl` of a key that the tree has not, down all levels.
use mathlib.Core.Path.{subst}
use tiny_backend.Prelude.{
  ℕ, suc, ◌≡◌, sym, ap, ap₂, ◌∙◌, false, Option, none, some, List, [], ◌∷◌, ◌++◌, map, length,
  arith,
}
use tiny_backend.BpTree.{Layout, index_block}
use tiny_backend.BpTree.Pairs.{first_key}
use tiny_backend.BpTree.Store.{Tree, put}
use tiny_backend.BpTree.Insert.{IterKey, success, take_in}
use tiny_backend.BpTree.Sorted.{first_key-append}
use tiny_backend.BpTree.Shape.{concat_map, All, Shape, root, contents, entry}
use tiny_backend.BpTree.Descend.{Picked}
use tiny_backend.BpTree.Reach.{concat_map-append}
use tiny_backend.BpTree.Nodes.{inside, inside-append, inodes}
use tiny_backend.BpTree.Grow.{ins, first_key-ins}
use tiny_backend.BpTree.Grow.Made.{Row, Context, Good, Grown, Inserts, link, made}
use tiny_backend.BpTree.Grow.Place.{new_key}
use tiny_backend.BpTree.Grow.Child.{left, right, Regrown}
use tiny_backend.BpTree.Grow.Take.{Behind, take_none, take_some}

module _ {ℓ} (V : Type ℓ) where
  some_inj : (a b : ℕ) → some a ≡ some b → a ≡ b
  some_inj a b e = ground arith

  -- The first key of the child after the insertion.
  pub grown_key :
      (h : ℕ) (x : Shape V h) (key k : ℕ) (v : V) (first : ℕ × Shape V h)
      (off : Option (ℕ × Shape V h))
      → first_key (contents V h x) ≡ some key
      → All (Good V h) (made V h first off)
      → concat_map (λ c. contents V h c.1) (made V h first off) ≡ ins (contents V h x) k v
      → first.0 ≡ new_key V k key
  grown_key h x key k v first none f g w = some_inj _ _ (
      sym (first_key-append (contents V h first.1) _ g.0.1)
      ∙ ap first_key w
      ∙ first_key-ins (contents V h x) k key v f)
  grown_key h x key k v first (some d) f g w = some_inj _ _ (
      sym (first_key-append (contents V h first.1) _ g.0.1)
      ∙ ap first_key w
      ∙ first_key-ins (contents V h x) k key v f)

  -- The entries with the new key of the child are those of the children after the insertion.
  pub same_entries :
      (h : ℕ) (xs : List (ℕ × Shape V h)) (key : ℕ) (x : Shape V h) (c : ℕ × Shape V h)
      (ys : List (ℕ × Shape V h))
      → c.0 ≡ key
      → root V h c.1 ≡ root V h x
      → map (entry V h) (xs ++ (key, x) ∷ ys) ≡ map (entry V h) (xs ++ c ∷ ys)
  same_entries h [] key x c ys e r = ap₂ (λ a b. (a, b) ∷ map (entry V h) ys) (sym e) (sym r)
  same_entries h (z ∷ xs) key x c ys e r =
      ap (λ l. entry V h z ∷ l) (same_entries h xs key x c ys e r)

  -- The block itself is none of those below it.
  pub self_outside :
      (t : Tree V) (before after : Row V) (h : ℕ) (s : Shape V (suc h)) (k : ℕ)
      → Context V t before after (suc h) s
      → (p : Picked (contents V h) s.1 k) → inside s.0 (inodes V h p.child.1) ≡ false
  self_outside t before after h s k c p =
      let f = λ (c : ℕ × Shape V h). inodes V h c.1 in
      let parts =
        ap (inside s.0)
          (ap (concat_map f) p.whole ∙ concat_map-append f p.before (p.child ∷ p.after)) in
      ground (
        arith,
        parts,
        c.distinct.0,
        inside-append s.0 (concat_map f p.before) (f p.child ++ concat_map f p.after),
        inside-append s.0 (f p.child) (concat_map f p.after),
      )

  child_outside :
      (h : ℕ) (s : Shape V (suc h)) (k : ℕ) (p : Picked (contents V h) s.1 k) (j : ℕ)
      → inside j (concat_map (λ c. inodes V h c.1) s.1) ≡ false
      → inside j (inodes V h p.child.1) ≡ false
  child_outside h s k p j n =
      let f = λ (c : ℕ × Shape V h). inodes V h c.1 in
      let parts =
        ap (inside j)
          (ap (concat_map f) p.whole ∙ concat_map-append f p.before (p.child ∷ p.after)) in
      ground (
        arith,
        parts,
        n,
        inside-append j (concat_map f p.before) (f p.child ++ concat_map f p.after),
        inside-append j (f p.child) (concat_map f p.after),
      )

  pub Grown-Behind :
      (t t1 : Tree V) (before after : Row V) (h : ℕ) (s : Shape V (suc h)) (k : ℕ) (v : V)
      (up : IterKey)
      → Context V t before after (suc h) s
      → (p : Picked (contents V h) s.1 k)
      → Grown V t t1
          (left V t before after h s k p)
          (right V t before after h s k p)
          h
          p.child.1
          k
          v
          up
      → Behind V t t1 h s
  Grown-Behind t t1 before after h s k v up c p g = record {
    was = map (entry V h) s.1;
    was_index = g.keeps s.0 _ (self_outside t before after h s k c p) c.nodes.0;
    keeps = λ j es n e. g.keeps j es (child_outside h s k p j n) e;
    grows = g.grows;
    none_free = g.none_free;
    same_begin = g.same_begin;
  }

  -- `take_in` behind an insertion into the picked child.
  pub take-Inserts :
      (l : Layout) (t t1 : Tree V) (before after : Row V) (h : ℕ) (s : Shape V (suc h)) (k : ℕ)
      (v : V) (up : IterKey) (xs : List (ℕ × Shape V h)) (first : ℕ × Shape V h)
      (off : Option (ℕ × Shape V h)) (ys : List (ℕ × Shape V h))
      → Behind V t t1 h s
      → up ≡ link V h off
      → Regrown V t t1 before after h s k v (xs ++ (made V h first off ++ ys))
      → Inserts V
          (take_in l s.0
            (map (entry V h) (xs ++ first ∷ ys))
            (length xs)
            (success, up, put t1 s.0 (index_block (map (entry V h) (xs ++ first ∷ ys)))))
          t
          before
          after
          (suc h)
          s
          k
          v
  take-Inserts l t t1 before after h s k v up xs first none ys b e r =
      subst
        (λ up.
          Inserts V
            (take_in l s.0 (map (entry V h) (xs ++ first ∷ ys)) (length xs)
              (success, up, put t1 s.0 (index_block (map (entry V h) (xs ++ first ∷ ys)))))
            t before after (suc h) s k v)
        (sym e) (take_none V l t t1 before after h s k v b xs first ys r)
  take-Inserts l t t1 before after h s k v up xs first (some d) ys b e r =
      subst
        (λ up.
          Inserts V
            (take_in l s.0 (map (entry V h) (xs ++ first ∷ ys)) (length xs)
              (success, up, put t1 s.0 (index_block (map (entry V h) (xs ++ first ∷ ys)))))
            t before after (suc h) s k v)
        (sym e) (take_some V l t t1 before after h s k v b xs first ys d r)
