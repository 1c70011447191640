-- ===== src/BpTree/Find.antt =====
-- Base/BPTree_impls/BPTree.hpp: what the searches return, by the pairs of the tree.
use tiny_backend.Prelude.{
  ℕ, zero, suc, ◌≤◌, ◌<◌, ◌≡◌, refl, sym, ap, ◌∙◌, Bool, true, false, ◌||◌, Option, none, some,
  List, [], ◌∷◌, length, get_elem?, take, ltb, ◌==◌, if◌then◌else◌, inl, inr, Bool-cases, arith,
}
use tiny_backend.BpTree.Pairs.{key_at, lower_bound}
use tiny_backend.BpTree.Bound.{lower_bound-rank}
use tiny_backend.BpTree.Store.{Tree}
use tiny_backend.BpTree.Search.{find, upper_bound, find_range, above_or_equal}
use tiny_backend.BpTree.Sorted.{lookup}
use tiny_backend.BpTree.Shape.{HoldsPairs}
use tiny_backend.BpTree.Cursor.{until, from, head?}
use tiny_backend.BpTree.Scans.{rest_loop-take, find_range_loop-until, upper_bound_loop-from}
use tiny_backend.BpTree.Sought.{pair_at-lookup, HoldsPairs-Sought}

module _ {ℓ} {V : Type ℓ} where
  if_some :
      (b : Bool) (o : Option (ℕ × V))
      → (if b then some none else some o) ≡ some (if b then none else o)
  if_some true o = refl
  if_some false o = refl

  pub take_nil : (n : ℕ) → take {A = ℕ × V} n [] ≡ []
  take_nil zero = refl
  take_nil (suc n) = refl

  -- `find` returns the pair with the key, if the tree has one, and fails nowhere: the fuel need not
  -- be more than the levels of index blocks.
  pub find-lookup :
      (t : Tree V) (fuel k : ℕ) (all : List (ℕ × V))
      → HoldsPairs fuel t all
      → find fuel t k ≡ some (lookup all k)
  unfolding find
  find-lookup t fuel k all hp = elim (HoldsPairs-Sought t fuel k all hp) [
    | inl e ↦ rw (e.0, e.1) refl
    | inr q ↦
        rw
          (
            q.found,
            q.got,
            q.same,
            sym (pair_at-lookup q.block.pairs k q.sorted),
            sym (lower_bound-rank q.block.pairs k q.sorted),
          )
          (if_some
            (lower_bound q.block.pairs k == length q.block.pairs
              || ltb k (key_at q.block.pairs (lower_bound q.block.pairs k)))
            (get_elem? q.block.pairs (lower_bound q.block.pairs k)))
  ]

  -- The search for a range returns the pairs with keys in it, in order, at most `limit` of them.
  pub find_range-contents :
      (t : Tree V) (fuel begin end limit : ℕ) (all : List (ℕ × V))
      → HoldsPairs fuel t all
      → begin < end
      → find_range fuel t begin end limit ≡ some (take limit (until end (from begin all)))
  unfolding find_range
  find_range-contents t fuel b e limit all hp h =
      let some_range : (ltb e b || b == e) ≡ false = ground arith in
      elim (HoldsPairs-Sought t fuel b all hp) [
        | inl n ↦ rw (some_range, n.0, n.1) (sym (ap some (take_nil limit)))
        | inr q ↦
            rw (some_range, q.found, q.got)
              (find_range_loop-until t limit e (from b all) q.block _ q.at)
      ]

  -- The scan from a key returns the pairs whose keys are not below it, in order, at most `limit` of
  -- them, across as many data blocks as they lie in; for the empty tree it returns none.
  pub above_or_equal-contents :
      (t : Tree V) (fuel k limit : ℕ) (all : List (ℕ × V))
      → HoldsPairs fuel t all
      → above_or_equal fuel t k limit ≡ some (take limit (from k all))
  unfolding above_or_equal
  above_or_equal-contents t fuel k limit all hp = elim (HoldsPairs-Sought t fuel k all hp) [
    | inl n ↦ rw (n.0, n.1) (sym (ap some (take_nil limit)))
    | inr q ↦ rw (q.found, q.got) (rest_loop-take t limit (from k all) q.block _ q.at)
  ]

  from-later : (k : ℕ) (all : List (ℕ × V)) → from (suc k) (from k all) ≡ from (suc k) all
  from-later k [] = refl
  from-later k (x ∷ all) = elim (Bool-cases (ltb x.0 k)) [
    | inl l ↦ let m : ltb x.0 (suc k) ≡ true = ground arith in rw (l, m) (from-later k all)
    | inr l ↦ rw l refl
  ]

  length-from : (k : ℕ) (all : List (ℕ × V)) → length (from k all) ≤ length all
  length-from k [] = omega arith
  length-from k (x ∷ all) =
      let rest = length-from k all in
      elim (Bool-cases (ltb x.0 k)) [ inl l ↦ rw l (omega arith) | inr l ↦ rw l (omega arith) ]

  -- `upper_bound` returns the first pair whose key is above the given one, if there is one, and fails
  -- nowhere, with a fuel of no less than the levels of index blocks and more than the pairs.
  pub upper_bound-head :
      (t : Tree V) (fuel k : ℕ) (all : List (ℕ × V))
      → HoldsPairs fuel t all
      → length all < fuel
      → upper_bound fuel t k ≡ some (head? (from (suc k) all))
  unfolding upper_bound
  upper_bound-head t fuel k all hp h =
      let len = length-from k all in
      elim (HoldsPairs-Sought t fuel k all hp) [
        | inl n ↦ rw (n.0, n.1) refl
        | inr q ↦
            rw (q.found, q.got)
              (upper_bound_loop-from t fuel k (from k all) q.block _ q.at (omega arith)
                ∙ ap (λ l. some (head? l)) (from-later k all))
      ]
