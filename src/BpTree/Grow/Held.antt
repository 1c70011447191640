-- ===== src/BpTree/Grow/Held.antt =====
-- Base/BPTree_impls/BPTree.hpp: a tree that insertions have built is one that the searches read.
use mathlib.Core.Path.{subst}
use mathlib.Core.List.{append-nil}
use tiny_backend.Prelude.{
  ℕ, zero, suc, ◌≡◌, refl, sym, ap, ◌∙◌, inl, inr, Option, none, some, List, [], ◌∷◌, ◌==◌, Bool,
  true, false, ltb, Bool-cases, if◌then◌else◌, arith,
}
use tiny_backend.BpTree.{Block, Layout}
use tiny_backend.BpTree.Store.{Tree}
use tiny_backend.BpTree.Insert.{State, success, can_insert_data, can_insert_index, insert_pair}
use tiny_backend.BpTree.Search.{find}
use tiny_backend.BpTree.Sorted.{lookup}
use tiny_backend.BpTree.Shape.{concat_map, All, Shape, leaves, pairs_of, IsStored, HoldsPairs}
use tiny_backend.BpTree.Rows.{head_or, last_or, IsRow, IsRow-IsLinked, IsRow-left, IsRow-right}
use tiny_backend.BpTree.Nodes.{IsNodes}
use tiny_backend.BpTree.Find.{find-lookup}
use tiny_backend.BpTree.Grow.{ins}
use tiny_backend.BpTree.Grow.Root.{Built}
use tiny_backend.BpTree.Grow.Whole.{insert_pair-Built}

module _ {ℓ} (V : Type ℓ) where
  all_IsStored :
      (bs : List (Block V)) (h : ℕ) (cs : List (ℕ × Shape V h)) (p n : ℕ)
      → ((s : Shape V h) (p n : ℕ)
          → IsNodes V bs h s
          → IsRow bs p n (leaves V h s)
          → IsStored V bs h s)
      → All (λ c. IsNodes V bs h c.1) cs
      → IsRow bs p n (concat_map (λ c. leaves V h c.1) cs)
      → All (λ c. IsStored V bs h c.1) cs
  all_IsStored bs h [] p n one nodes row = tt
  all_IsStored bs h (c ∷ cs) p n one nodes row =
      let below = concat_map (λ c. leaves V h c.1) cs in
      (
        one c.1 p (head_or n below) nodes.0 (IsRow-left bs p n (leaves V h c.1) below row),
        all_IsStored bs h cs (last_or p (leaves V h c.1)) n one nodes.1
            (IsRow-right bs p n (leaves V h c.1) below row),
      )

  -- The blocks of a built tree hold its pairs as the searches want them.
  row_IsStored :
      (bs : List (Block V)) (h : ℕ) (s : Shape V h) (p n : ℕ)
      → IsNodes V bs h s
      → IsRow bs p n (leaves V h s)
      → IsStored V bs h s
  row_IsStored bs zero s p n nodes row = ap pairs_of row.0
  row_IsStored bs (suc h) s p n nodes row =
      (nodes.0, all_IsStored bs h s.1 p n (row_IsStored bs h) nodes.1 row)

  pub Built-HoldsPairs :
      (n : ℕ) (t : Tree V) (all : List (ℕ × V)) → Built V n t all → HoldsPairs n t all
  Built-HoldsPairs n t all b = elim b.tree [
    | inl e ↦ inl e
    | inr (h, s, c, at, ne, le, e) ↦
        let row = subst (IsRow t.blocks 0 0) (append-nil (leaves V h s)) c.row in
        inr (
          h,
          s,
          record {
            at_root = at;
            in_use = ne;
            stored = row_IsStored t.blocks h s 0 0 c.nodes row;
            ordered = c.ordered;
            linked = IsRow-IsLinked t.blocks 0 (leaves V h s) row;
          },
          le,
          e,
        )
  ]

  lookup_skip :
      (x : ℕ × V) (es : List (ℕ × V)) (k : ℕ) → (x.0 == k) ≡ false → lookup (x ∷ es) k ≡ lookup es k
  lookup_skip x es k e = rw e refl

  later :
      (x : ℕ × V) (es : List (ℕ × V)) (k : ℕ)
      → ltb x.0 k ≡ true
      → lookup (x ∷ es) k ≡ none
      → lookup es k ≡ none
  later x es k l n =
      let other : (x.0 == k) ≡ false = ground arith in sym (lookup_skip x es k other) ∙ n

  lookup-ins :
      (es : List (ℕ × V)) (k : ℕ) (v : V) (j : ℕ)
      → lookup es k ≡ none
      → lookup (ins es k v) j ≡ (if k == j then some (k, v) else lookup es j)
  lookup-ins [] k v j n = refl
  lookup-ins (x ∷ es) k v j n = elim (Bool-cases (ltb x.0 k)) [
    | inr l ↦ rw l refl
    | inl l ↦ elim (Bool-cases (x.0 == j)) [
      | inl e ↦ let other : (k == j) ≡ false = ground arith in rw (l, e, other) refl
      | inr e ↦ rw (l, e) (lookup-ins es k v j (later x es k l n))
    ]
  ]

  abbrev inner : Option (ℕ × V) → Option (Option (ℕ × V)) → Option (ℕ × V)
  inner d none = d
  inner d (some a) = a

  some_inj : {a b : Option (ℕ × V)} → some a ≡ some b → a ≡ b
  some_inj {a = a} e = ap (λ o. inner a o) e

  if_found :
      (b : Bool) (x : ℕ × V) (o : Option (ℕ × V)) (r : Option (Option (ℕ × V)))
      → r ≡ some o
      → some (if b then some x else o) ≡ (if b then some (some x) else r)
  if_found true x o r e = refl
  if_found false x o r e = sym e

  -- A run that ends with a tree of the pairs `all`, in which `find` answers so.
  pub record FoundAfter (run : Option (State × Tree V)) (n : ℕ) (all : List (ℕ × V)) (j : ℕ)
      (answer : Option (Option (ℕ × V))) : Type ℓ where
    pub t' : Tree V
    pub ran : run ≡ some (success, t')
    pub built : Built V n t' all
    pub found : find n t' j ≡ answer

  -- Of a tree that insertions have built: the insertion of a key that `find` does not find succeeds
  -- and gives such a tree, with the new pair at its place among the others, in which `find` answers
  -- the new pair for the new key and for every other key what it did before. The fuel is one more
  -- than the levels of index blocks, and one block has room for one pair and for two pointers.
  pub find-insert :
      (l : Layout) (t : Tree V) (n : ℕ) (all : List (ℕ × V)) (k : ℕ) (v : V) (j : ℕ)
      → Built V n t all
      → find n t k ≡ some none
      → can_insert_data l 0 ≡ true
      → can_insert_index l 0 ≡ true
      → can_insert_index l 1 ≡ true
      → FoundAfter
          (insert_pair (suc n) l t k v)
          (suc n)
          (ins all k v)
          j
          (if k == j then some (some (k, v)) else find n t j)
  find-insert l t n all k v j b a d0 i0 i1 =
      let gone = some_inj (sym (find-lookup t n k all (Built-HoldsPairs n t all b)) ∙ a) in
      let r = insert_pair-Built V l t n all k v b gone d0 i0 i1 in
      let found =
        find-lookup r.t' (suc n) j (ins all k v)
          (Built-HoldsPairs (suc n) r.t' (ins all k v) r.built) in
      let before = find-lookup t n j all (Built-HoldsPairs n t all b) in
      record {
        t' = r.t';
        ran = r.ran;
        built = r.built;
        found =
            found
            ∙ ap some (lookup-ins all k v j gone)
            ∙ if_found (k == j) (k, v) (lookup all j) (find n t j) before;
      }
