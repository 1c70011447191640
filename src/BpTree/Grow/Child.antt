-- ===== src/BpTree/Grow/Child.antt =====
-- Base/BPTree_impls/BPTree.hpp: the children of an index block after an insertion into one of them.
use mathlib.Core.Path.{subst}
use mathlib.Core.List.{append-nil, append_assoc}
use tiny_backend.Prelude.{
  ℕ, suc, ◌≤◌, ◌<◌, ◌≡◌, refl, sym, ap, ◌∙◌, ◌⊎◌, true, none, List, [], ◌∷◌, ◌++◌, length, arith,
}
use tiny_backend.BpTree.Bound.{IsSorted}
use tiny_backend.BpTree.Store.{Tree}
use tiny_backend.BpTree.Sorted.{lookup}
use tiny_backend.BpTree.Insert.{IterKey}
use tiny_backend.BpTree.Shape.{concat_map, All, Shape, contents, leaves}
use tiny_backend.BpTree.Descend.{Picked}
use tiny_backend.BpTree.Reach.{concat_map-append, All-middle}
use tiny_backend.BpTree.Rows.{IsRow}
use tiny_backend.BpTree.Nodes.{
  inside, inside-append, Distinct, Distinct-left, Distinct-right, Distinct-Apart, Distinct-replace,
  Apart, inodes, IsNodes, IsNodes-frame_all, IsNodes-lt, Keeps,
}
use tiny_backend.BpTree.Grow.{ins, ins-Below, ins-Above, ins-IsSorted}
use tiny_backend.BpTree.Grow.Made.{Row, Context, Good, Grown, made}

module _ {ℓ κ} {A : Type ℓ} (P : A → Type κ) where
  pub All-left : (xs ys : List A) → All P (xs ++ ys) → All P xs
  All-left [] ys a = tt
  All-left (x ∷ xs) ys a = (a.0, All-left xs ys a.1)

  pub All-right : (xs ys : List A) → All P (xs ++ ys) → All P ys
  All-right [] ys a = a
  All-right (x ∷ xs) ys a = All-right xs ys a.1

  pub All-append : (xs ys : List A) → All P xs → All P ys → All P (xs ++ ys)
  All-append [] ys a b = b
  All-append (x ∷ xs) ys a b = (a.0, All-append xs ys a.1 b)

module _ {ℓ κ} {A : Type ℓ} {B : Type κ} (f : A → List B) where
  -- A child in the middle, or what comes in its place.
  pub concat_map-middle :
      (xs ms ys : List A)
      → concat_map f (xs ++ (ms ++ ys)) ≡ concat_map f xs ++ (concat_map f ms ++ concat_map f ys)
  concat_map-middle xs ms ys =
      concat_map-append f xs (ms ++ ys) ∙ ap (λ l. concat_map f xs ++ l) (concat_map-append f ms ys)

pub around {ℓ} :
    {A : Type ℓ} (us vs ms ws zs : List A)
    → us ++ ((vs ++ (ms ++ ws)) ++ zs) ≡ (us ++ vs) ++ (ms ++ (ws ++ zs))
around us vs ms ws zs = rw (append_assoc, append_assoc, append_assoc) refl

module _ {ℓ} (V : Type ℓ) where
  below_leaves : (h : ℕ) → List (ℕ × Shape V h) → Row V
  below_leaves h = concat_map (λ c. leaves V h c.1)

  -- The row around a child: with what stands left and right of it in the block.
  pub row_around :
      (h : ℕ) (before after : Row V) (xs ms ys : List (ℕ × Shape V h))
      → before ++ (concat_map (λ c. leaves V h c.1) (xs ++ (ms ++ ys)) ++ after)
        ≡ (before ++ concat_map (λ c. leaves V h c.1) xs)
          ++ (concat_map (λ c. leaves V h c.1) ms ++ (concat_map (λ c. leaves V h c.1) ys ++ after))
  row_around h before after xs ms ys =
      ap (λ l. before ++ (l ++ after)) (concat_map-middle (λ c. leaves V h c.1) xs ms ys)
      ∙ around before (concat_map (λ c. leaves V h c.1) xs) (concat_map (λ c. leaves V h c.1) ms)
          (concat_map (λ c. leaves V h c.1) ys) after

  module _ (t : Tree V) (before after : Row V) (h : ℕ) (s : Shape V (suc h)) (k : ℕ) where
    abbrev pub left : Picked (contents V h) s.1 k → Row V
    left p = before ++ concat_map (λ c. leaves V h c.1) p.before

    abbrev pub right : Picked (contents V h) s.1 k → Row V
    right p = concat_map (λ c. leaves V h c.1) p.after ++ after

    pub child-Context :
        (p : Picked (contents V h) s.1 k)
        → Context V t before after (suc h) s
        → Context V t (left p) (right p) h p.child.1
    child-Context p c =
        let row =
          ap (λ cs. before ++ (concat_map (λ c. leaves V h c.1) cs ++ after)) p.whole
          ∙ row_around h before after p.before (p.child ∷ []) p.after
          ∙ ap (λ l. left p ++ (l ++ right p)) (append-nil (leaves V h p.child.1)) in
        let below = λ (c : ℕ × Shape V h). inodes V h c.1 in
        let parts =
          ap (concat_map below) p.whole ∙ concat_map-append below p.before (p.child ∷ p.after) in
        record {
          none_free = c.none_free;
          positive = c.positive;
          nodes =
              All-middle (λ c. IsNodes V t.blocks h c.1) p.before p.after
                (subst (All (λ c. IsNodes V t.blocks h c.1)) p.whole c.nodes.1);
          row = subst (IsRow t.blocks 0 0) row c.row;
          sorted = subst (λ l. IsSorted (concat_map (λ l. l.1) l)) row c.sorted;
          ordered =
              (All-middle (Good V h) p.before p.after
                (subst (All (Good V h)) p.whole c.ordered.2)).0;
          distinct =
              Distinct-left (below p.child) _
                (Distinct-right (concat_map below p.before) _ (subst Distinct parts c.distinct.1));
        }

  -- The children after the insertion: those around the picked one, and what is left of it.
  pub record Regrown (t t' : Tree V) (before after : Row V) (h : ℕ) (s : Shape V (suc h)) (k : ℕ)
      (v : V) (cs : List (ℕ × Shape V h)) : Type ℓ where
    pub whole : concat_map (λ c. contents V h c.1) cs ≡ ins (contents V (suc h) s) k v
    pub good : All (Good V h) cs
    pub sorted : IsSorted (concat_map (λ c. contents V h c.1) cs)
    pub nodes : All (λ c. IsNodes V t'.blocks h c.1) cs
    pub row : IsRow t'.blocks 0 0 (before ++ (concat_map (λ c. leaves V h c.1) cs ++ after))
    pub distinct : Distinct (s.0 ∷ concat_map (λ c. inodes V h c.1) cs)
    pub old_or_new :
        (j : ℕ)
        → inside j (concat_map (λ c. inodes V h c.1) cs) ≡ true
        → (inside j (inodes V (suc h) s) ≡ true) ⊎ (length t.blocks ≤ j)

  module _ (t t' : Tree V) (before after : Row V) (h : ℕ) (s : Shape V (suc h)) (k : ℕ) (v : V)
      (p : Picked (contents V h) s.1 k) (ms : List (ℕ × Shape V h)) where
    regrown_whole :
        concat_map (λ c. contents V h c.1) ms ≡ ins (contents V h p.child.1) k v
        → concat_map (λ c. contents V h c.1) (p.before ++ (ms ++ p.after))
          ≡ ins (contents V (suc h) s) k v
    regrown_whole e =
        let f = λ (c : ℕ × Shape V h). contents V h c.1 in
        let xs = concat_map f p.before in
        let ys = concat_map f p.after in
        concat_map-middle f p.before ms p.after
        ∙ ap (λ l. xs ++ (l ++ ys)) e
        ∙ ap (λ l. xs ++ l) (sym (ins-Above (f p.child) ys k v p.high))
        ∙ sym (ins-Below xs (f p.child ++ ys) k v p.low)
        ∙ ap (λ l. ins l k v)
            (sym (ap (concat_map f) p.whole ∙ concat_map-append f p.before (p.child ∷ p.after)))

    -- The numbers of the blocks of the other children.
    regrown-Distinct :
        Distinct (inodes V (suc h) s)
        → ((j : ℕ) → inside j (inodes V (suc h) s) ≡ true → j < length t.blocks)
        → Distinct (concat_map (λ c. inodes V h c.1) ms)
        → ((j : ℕ)
            → inside j (concat_map (λ c. inodes V h c.1) ms) ≡ true
            → (inside j (inodes V h p.child.1) ≡ true) ⊎ (length t.blocks ≤ j))
        → Distinct (s.0 ∷ concat_map (λ c. inodes V h c.1) (p.before ++ (ms ++ p.after)))
    regrown-Distinct d lt d' new =
        let f = λ (c : ℕ × Shape V h). inodes V h c.1 in
        let parts = ap (concat_map f) p.whole ∙ concat_map-append f p.before (p.child ∷ p.after) in
        let old = subst (λ l. Distinct (s.0 ∷ l)) parts d in
        let all : (j : ℕ)
            → inside j (s.0 ∷ (concat_map f p.before ++ (f p.child ++ concat_map f p.after))) ≡ true
            → j < length t.blocks =
          λ j i. lt j (ap (λ l. inside j (s.0 ∷ l)) parts ∙ i) in
        subst (λ l. Distinct (s.0 ∷ l)) (sym (concat_map-middle f p.before ms p.after))
          (Distinct-replace (s.0 ∷ concat_map f p.before) (f p.child) (concat_map f ms)
            (concat_map f p.after) (length t.blocks) old d'
            (λ j i. all j (
              ground (
                arith,
                inside-append j (concat_map f p.before) (f p.child ++ concat_map f p.after),
                i,
              )))
            (λ j i. all j (
              ground (
                arith,
                inside-append j (concat_map f p.before) (f p.child ++ concat_map f p.after),
                inside-append j (f p.child) (concat_map f p.after),
                i,
              )))
            new)

    regrown_new :
        ((j : ℕ)
          → inside j (concat_map (λ c. inodes V h c.1) ms) ≡ true
          → (inside j (inodes V h p.child.1) ≡ true) ⊎ (length t.blocks ≤ j))
        → (j : ℕ) → inside j (concat_map (λ c. inodes V h c.1) (p.before ++ (ms ++ p.after))) ≡ true
        → (inside j (inodes V (suc h) s) ≡ true) ⊎ (length t.blocks ≤ j)
    regrown_new new j i =
        let f = λ (c : ℕ × Shape V h). inodes V h c.1 in
        let parts =
          ap (inside j)
            (ap (concat_map f) p.whole ∙ concat_map-append f p.before (p.child ∷ p.after)) in
        let parts' = ap (inside j) (concat_map-middle f p.before ms p.after) in
        ground (
          arith,
          parts,
          parts',
          i,
          new j,
          inside-append j (concat_map f p.before) (f p.child ++ concat_map f p.after),
          inside-append j (f p.child) (concat_map f p.after),
          inside-append j (concat_map f p.before) (concat_map f ms ++ concat_map f p.after),
          inside-append j (concat_map f ms) (concat_map f p.after),
        )

    regrown_nodes :
        All (λ c. IsNodes V t.blocks h c.1) s.1
        → Distinct (concat_map (λ c. inodes V h c.1) s.1)
        → Keeps V t.blocks t'.blocks (inodes V h p.child.1)
        → All (λ c. IsNodes V t'.blocks h c.1) ms
        → All (λ c. IsNodes V t'.blocks h c.1) (p.before ++ (ms ++ p.after))
    regrown_nodes n d kp m =
        let f = λ (c : ℕ × Shape V h). inodes V h c.1 in
        let P = λ (c : ℕ × Shape V h). IsNodes V t.blocks h c.1 in
        let n' = subst (All P) p.whole n in
        let d' =
          subst Distinct
            (ap (concat_map f) p.whole ∙ concat_map-append f p.before (p.child ∷ p.after)) d in
        let front : Apart (concat_map f p.before) (f p.child) = λ j i. ground (
          arith,
          Distinct-Apart (concat_map f p.before) (f p.child ++ concat_map f p.after) d' j i,
          inside-append j (f p.child) (concat_map f p.after),
        ) in
        let behind : Apart (concat_map f p.after) (f p.child) = λ j i. ground (
          arith,
          Distinct-Apart (f p.child) (concat_map f p.after)
              (Distinct-right (concat_map f p.before) _ d') j,
          i,
        ) in
        All-append _ p.before (ms ++ p.after)
          (IsNodes-frame_all V t.blocks t'.blocks (f p.child) h p.before kp front
            (All-left P p.before _ n'))
          (All-append _ ms p.after m (
            IsNodes-frame_all V t.blocks t'.blocks (f p.child) h p.after kp behind
              (All-right P p.before (p.child ∷ p.after) n').1))

  -- What the insertion into the picked child leaves of the children.
  pub Grown-Regrown :
      (t t' : Tree V) (before after : Row V) (h : ℕ) (s : Shape V (suc h)) (k : ℕ) (v : V)
      (up : IterKey) (p : Picked (contents V h) s.1 k)
      → Context V t before after (suc h) s
      → lookup (contents V (suc h) s) k ≡ none
      → (g : Grown V t t'
          (left t before after h s k p)
          (right t before after h s k p)
          h
          p.child.1
          k
          v
          up)
      → Regrown t t' before after h s k v (p.before ++ (made V h g.first g.off ++ p.after))
  Grown-Regrown t t' before after h s k v up p c n g =
      let ms = made V h g.first g.off in
      let whole = regrown_whole t t' before after h s k v p ms g.whole in
      let lt = IsNodes-lt V t.blocks (suc h) s c.nodes in
      let old = subst (All (Good V h)) p.whole c.ordered.2 in
      record {
        whole = whole;
        good = All-append (Good V h) p.before (ms ++ p.after) (All-left (Good V h) p.before _ old) (
            All-append (Good V h) ms p.after g.good
              (All-right (Good V h) p.before (p.child ∷ p.after) old).1);
        sorted = subst IsSorted (sym whole) (ins-IsSorted (contents V (suc h) s) k v c.ordered.0 n);
        nodes = regrown_nodes t t' before after h s k v p ms c.nodes.1 c.distinct.1 g.keeps g.nodes;
        row =
            subst (IsRow t'.blocks 0 0) (sym (row_around h before after p.before ms p.after)) g.row;
        distinct =
            regrown-Distinct t t' before after h s k v p ms c.distinct lt g.distinct g.old_or_new;
        old_or_new = regrown_new t t' before after h s k v p ms g.old_or_new;
      }
