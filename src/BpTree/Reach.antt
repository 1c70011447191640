-- ===== src/BpTree/Reach.antt =====
-- Base/BPTree_impls/BPTree.hpp: `find_data` comes to the data block in which a key has its place.
use mathlib.Core.Path.{subst}
use mathlib.Core.List.{append_assoc, append-nil}
use tiny_backend.Prelude.{
  ℕ, zero, suc, ◌<◌, ◌≡◌, refl, sym, ap, ap₂, ◌∙◌, true, false, Option, none, some, List, [], ◌∷◌,
  ◌++◌, map, length, get_elem?, arith,
}
use tiny_backend.BpTree.{DataBlock, Block, head_block, record_block, data_block, index_block}
use tiny_backend.BpTree.Pairs.{first_key, lower_bound}
use tiny_backend.BpTree.Bound.{Above, IsSorted}
use tiny_backend.BpTree.Store.{Tree, as_data, as_index, is_data, pointer_at}
use tiny_backend.BpTree.Search.{step_back, find_data_loop}
use tiny_backend.BpTree.Sorted.{
  Below, Below-append, Above-append, IsSorted-right, Above-right, Above-left, Above-first_key,
  IsSorted-Above, lookup, lookup-between,
}
use tiny_backend.BpTree.Shape.{
  concat_map, All, Shape, root, contents, leaves, entry, pairs_of, IsStored, IsOrdered,
}
use tiny_backend.BpTree.Descend.{
  pick, Heads, Picked, pick-Picked, step_back-pick, step_back-pick_again,
}

module _ {ℓ κ} {A : Type ℓ} {B : Type κ} (f : A → List B) where
  pub concat_map-append :
      (xs ys : List A) → concat_map f (xs ++ ys) ≡ concat_map f xs ++ concat_map f ys
  concat_map-append [] ys = refl
  concat_map-append (x ∷ xs) ys = rw (concat_map-append xs ys, append_assoc) refl

pub concat_map-twice {ℓ κ μ} :
    {A : Type ℓ} {B : Type κ} {C : Type μ} (f : A → List C) (g : A → List B) (p : B → List C)
    → ((x : A) → f x ≡ concat_map p (g x))
    → (xs : List A) → concat_map f xs ≡ concat_map p (concat_map g xs)
concat_map-twice f g p e [] = refl
concat_map-twice f g p e (x ∷ xs) =
    ap₂ ◌++◌ (e x) (concat_map-twice f g p e xs) ∙ sym (concat_map-append p (g x) (concat_map g xs))

module _ {ℓ κ} {A : Type ℓ} (P : A → Type κ) where
  pub All-middle : (xs : List A) {y : A} (ys : List A) → All P (xs ++ y ∷ ys) → P y
  All-middle [] ys a = a.0
  All-middle (x ∷ xs) ys a = All-middle xs ys a.1

module _ {ℓ} {V : Type ℓ} where
  pub is_data-leaf :
      (o : Option (Block V)) {ps : List (ℕ × V)} → pairs_of o ≡ some ps → is_data o ≡ some true
  is_data-leaf none e = ground arith
  is_data-leaf (some head_block) e = ground arith
  is_data-leaf (some (record_block l n s)) e = ground arith
  is_data-leaf (some (data_block d)) e = refl
  is_data-leaf (some (index_block es)) e = ground arith

  pub is_data-index :
      (o : Option (Block V)) {es : List (ℕ × ℕ)} → as_index o ≡ some es → is_data o ≡ some false
  is_data-index none e = ground arith
  is_data-index (some head_block) e = ground arith
  is_data-index (some (record_block l n s)) e = ground arith
  is_data-index (some (data_block d)) e = ground arith
  is_data-index (some (index_block es)) e = refl

  pub as_data-leaf :
      (o : Option (Block V)) {ps : List (ℕ × V)}
      → pairs_of o ≡ some ps
      → (d : DataBlock V) × (as_data o ≡ some d) × (d.pairs ≡ ps)
  as_data-leaf none e = absurd (ground arith)
  as_data-leaf (some head_block) e = absurd (ground arith)
  as_data-leaf (some (record_block l n s)) e = absurd (ground arith)
  as_data-leaf (some (data_block d)) e = (d, refl, ground arith)
  as_data-leaf (some (index_block es)) e = absurd (ground arith)

module _ {ℓ} (V : Type ℓ) where
  pub contents-leaves :
      (h : ℕ) (s : Shape V h) → contents V h s ≡ concat_map (λ l. l.1) (leaves V h s)
  contents-leaves zero s = sym (append-nil s.1)
  contents-leaves (suc h) s =
      concat_map-twice (λ c. contents V h c.1) (λ c. leaves V h c.1) (λ l. l.1)
        (λ c. contents-leaves h c.1) s.1

  pub pointer_at-middle :
      (h : ℕ) (xs : List (ℕ × Shape V h)) (c : ℕ × Shape V h) (ys : List (ℕ × Shape V h))
      → pointer_at (map (entry V h) (xs ++ c ∷ ys)) (length xs) ≡ some (root V h c.1)
  pointer_at-middle h [] c ys = refl
  pointer_at-middle h (x ∷ xs) c ys = pointer_at-middle h xs c ys

  pub pick-map :
      (h : ℕ) (cs : List (ℕ × Shape V h)) (k : ℕ) → pick (map (entry V h) cs) k ≡ pick cs k
  pick-map h [] k = refl
  pick-map h (c ∷ []) k = refl
  pick-map h (c ∷ d ∷ cs) k = rw (pick-map h (d ∷ cs) k) refl

  entries-Above :
      (h : ℕ) (cs : List (ℕ × Shape V h)) (k : ℕ)
      → Heads (contents V h) cs
      → Above k (concat_map (λ c. contents V h c.1) cs)
      → Above k (map (entry V h) cs)
  entries-Above h [] k hs a = tt
  entries-Above h (c ∷ cs) k hs a = (
    Above-first_key _ (Above-left (contents V h c.1) _ k a) hs.0,
    entries-Above h cs k hs.1 (Above-right (contents V h c.1) _ k a),
  )

  pub entries-IsSorted :
      (h : ℕ) (cs : List (ℕ × Shape V h))
      → Heads (contents V h) cs
      → IsSorted (concat_map (λ c. contents V h c.1) cs)
      → IsSorted (map (entry V h) cs)
  entries-IsSorted h [] hs s = tt
  entries-IsSorted h (c ∷ cs) hs s = (
    entries-Above h cs c.0 hs.1 (IsSorted-Above (contents V h c.1) _ s hs.0),
    entries-IsSorted h cs hs.1 (IsSorted-right (contents V h c.1) _ s),
  )

  pub All-Heads :
      (h : ℕ) (cs : List (ℕ × Shape V h))
      → All (λ c. IsOrdered V h c.1 × (first_key (contents V h c.1) ≡ some c.0)) cs
      → Heads (contents V h) cs
  All-Heads h [] a = tt
  All-Heads h (c ∷ cs) a = (a.0.1, All-Heads h cs a.1)

  -- The data block `index`, with smaller keys before it and larger ones behind it.
  pub record Reached (bs : List (Block V)) (h : ℕ) (s : Shape V h) (k index : ℕ) : Type ℓ where
    pub pairs : List (ℕ × V)
    pub before : List (ℕ × List (ℕ × V))
    pub after : List (ℕ × List (ℕ × V))
    pub whole : leaves V h s ≡ before ++ (index, pairs) ∷ after
    pub low : Below k (concat_map (λ l. l.1) before)
    pub high : Above k (concat_map (λ l. l.1) after)
    pub stored : pairs_of (get_elem? bs index) ≡ some pairs
    pub ordered : IsSorted pairs

  pub leaf-Reached :
      (bs : List (Block V)) (s : Shape V 0) (k : ℕ)
      → IsStored V bs 0 s
      → IsOrdered V 0 s
      → Reached bs 0 s k s.0
  leaf-Reached bs s k st o = record {
    pairs = s.1;
    before = [];
    after = [];
    whole = refl;
    low = tt;
    high = tt;
    stored = st;
    ordered = o.0;
  }

  child-Reached :
      (bs : List (Block V)) (h : ℕ) (s : Shape V (suc h)) (k i : ℕ)
      (p : Picked (contents V h) s.1 k)
      → Reached bs h p.child.1 k i
      → Reached bs (suc h) s k i
  child-Reached bs h s k i p r =
      let below = λ (c : ℕ × Shape V h). leaves V h c.1 in
      let twice =
        concat_map-twice (λ c. contents V h c.1) below (λ l. l.1) (λ c. contents-leaves h c.1) in
      record {
        pairs = r.pairs;
        before = concat_map below p.before ++ r.before;
        after = r.after ++ concat_map below p.after;
        whole =
            ap (concat_map below) p.whole
            ∙ concat_map-append below p.before (p.child ∷ p.after)
            ∙ ap (λ x. concat_map below p.before ++ (x ++ concat_map below p.after)) r.whole
            ∙ rw (append_assoc, append_assoc) refl;
        low =
            subst (Below k)
              (sym (concat_map-append (λ l. l.1) (concat_map below p.before) r.before))
              (Below-append _ _ k (subst (Below k) (twice p.before) p.low) r.low);
        high =
            subst (Above k) (sym (concat_map-append (λ l. l.1) r.after (concat_map below p.after)))
              (Above-append _ _ k r.high (subst (Above k) (twice p.after) p.high));
        stored = r.stored;
        ordered = r.ordered;
      }

  -- The child that a round of the loop takes.
  pub record Turn (h : ℕ) (s : Shape V (suc h)) (k : ℕ) : Type ℓ where
    pub pos : ℕ
    pub picked : Picked (contents V h) s.1 k
    pub bound : step_back (map (entry V h) s.1) k (lower_bound (map (entry V h) s.1) k) ≡ pos
    pub again : step_back (map (entry V h) s.1) k pos ≡ pos
    pub pointer : pointer_at (map (entry V h) s.1) pos ≡ some (root V h picked.child.1)

  pub IsOrdered-Turn : (h : ℕ) (s : Shape V (suc h)) (k : ℕ) → IsOrdered V (suc h) s → Turn h s k
  IsOrdered-Turn h (i, []) k o = absurd (o.1 refl)
  IsOrdered-Turn h (i, c ∷ cs) k o =
      let hs = All-Heads h (c ∷ cs) o.2 in
      let p = pick-Picked (contents V h) c cs k hs o.0 in
      let es = map (entry V h) cs in
      record {
        pos = pick (entry V h c ∷ es) k;
        picked = p;
        bound = step_back-pick (entry V h c) es k (entries-IsSorted h (c ∷ cs) hs o.0);
        again = step_back-pick_again (entry V h c) es k;
        pointer =
            ap (pointer_at (entry V h c ∷ es)) (pick-map h (c ∷ cs) k ∙ sym p.place)
            ∙ ap (λ x. pointer_at (map (entry V h) x) (length p.before)) p.whole
            ∙ pointer_at-middle h p.before p.child p.after;
      }

  -- What holds of all children holds of the picked one.
  pub picked-All {κ} :
      (h : ℕ) (s : Shape V (suc h)) (k : ℕ) (P : ℕ × Shape V h → Type κ)
      (p : Picked (contents V h) s.1 k)
      → All P s.1
      → P p.child
  picked-All h s k P p a = All-middle P p.before p.after (subst (All P) p.whole a)

  -- The picked child has not a key that the block has not.
  pub Picked-absent :
      (h : ℕ) (s : Shape V (suc h)) (k : ℕ) (p : Picked (contents V h) s.1 k)
      → lookup (contents V (suc h) s) k ≡ none
      → lookup (contents V h p.child.1) k ≡ none
  Picked-absent h s k p n =
      let f = λ (c : ℕ × Shape V h). contents V h c.1 in
      sym (lookup-between (concat_map f p.before) (f p.child) (concat_map f p.after) k p.low p.high)
      ∙ ap (λ l. lookup l k)
          (sym (ap (concat_map f) p.whole ∙ concat_map-append f p.before (p.child ∷ p.after)))
      ∙ n

  pub find_data_loop-Reached :
      (t : Tree V) (h : ℕ) (s : Shape V (suc h)) (k fuel : ℕ)
      → IsStored V t.blocks (suc h) s
      → IsOrdered V (suc h) s
      → h < fuel
      → (i : ℕ) × (find_data_loop fuel t k s.0 ≡ some i) × Reached t.blocks (suc h) s k i
  unfolding find_data_loop
  find_data_loop-Reached t h s k zero st o f = absurd (omega arith)
  find_data_loop-Reached t zero s k (suc fuel) st o f =
      let u = IsOrdered-Turn 0 s k o in
      let c = u.picked.child.1 in
      let sc = picked-All 0 s k (λ c. IsStored V t.blocks 0 c.1) u.picked st.1 in
      let oc =
        picked-All 0 s k (λ c. IsOrdered V 0 c.1 × (first_key (contents V 0 c.1) ≡ some c.0))
          u.picked o.2 in
      let d = as_data-leaf (get_elem? t.blocks c.0) sc in
      (
        c.0,
        rw
            (
              st.0,
              u.bound,
              u.pointer,
              is_data-leaf (get_elem? t.blocks c.0) sc,
              u.bound,
              u.again,
              u.pointer,
              d.1,
            )
            refl,
        child-Reached t.blocks 0 s k c.0 u.picked (leaf-Reached t.blocks c k sc oc.0),
      )
  find_data_loop-Reached t (suc h) s k (suc fuel) st o f =
      let u = IsOrdered-Turn (suc h) s k o in
      let c = u.picked.child.1 in
      let sc = picked-All (suc h) s k (λ c. IsStored V t.blocks (suc h) c.1) u.picked st.1 in
      let oc =
        picked-All (suc h) s k
          (λ c. IsOrdered V (suc h) c.1 × (first_key (contents V (suc h) c.1) ≡ some c.0)) u.picked
          o.2 in
      let below = find_data_loop-Reached t h c k fuel sc oc.0 (omega arith) in
      (
        below.0,
        rw (st.0, u.bound, u.pointer, is_data-index (get_elem? t.blocks c.0) sc.0) below.1,
        child-Reached t.blocks (suc h) s k below.0 u.picked below.2,
      )
