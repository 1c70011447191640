-- ===== src/BpTree/Lower.antt =====
-- Base/BPTree_impls/BPTree.hpp: what `lower_bound` of the tree returns.
use tiny_backend.Prelude.Partial.{◌>>=◌}
use tiny_backend.Prelude.{
  ℕ, ◌≡◌, refl, sym, ap, ◌∙◌, true, not, Option, none, some, List, [], ◌∷◌, length, get_elem?, ◌==◌,
  if◌then◌else◌, inl, inr, Bool-cases, arith,
}
use tiny_backend.BpTree.{DataBlock}
use tiny_backend.BpTree.Pairs.{lower_bound}
use tiny_backend.BpTree.Store.{Tree}
use tiny_backend.BpTree.Search.{hop, have_next, to_next, lower_bound_in}
use tiny_backend.BpTree.Shape.{HoldsPairs}
use tiny_backend.BpTree.Cursor.{from, head?, At, At-More, At-done}
use tiny_backend.BpTree.Scans.{hop_done}
use tiny_backend.BpTree.Sought.{HoldsPairs-Sought}

get_elem?-end {ℓ} : {A : Type ℓ} (xs : List A) → get_elem? xs (length xs) ≡ none
get_elem?-end [] = refl
get_elem?-end (x ∷ xs) = get_elem?-end xs

get_elem?-at_end {ℓ} :
    {A : Type ℓ} (xs : List A) (i : ℕ) → (i == length xs) ≡ true → get_elem? xs i ≡ none
get_elem?-at_end xs i e =
    let same : i ≡ length xs = ground arith in ap (get_elem? xs) same ∙ get_elem?-end xs

module _ {ℓ} {V : Type ℓ} (t : Tree V) where
  -- The end of `lower_bound`, in the block of the key.
  abbrev from_block : DataBlock V → (pos : ℕ) → Option (Option (ℕ × V))
  from_block d pos =
      if pos == length d.pairs
      then (if not (have_next d)
          then some none
          else (do d' ← to_next t d; some (get_elem? d'.pairs 0)))
      else some (get_elem? d.pairs pos)

  abbrev through_hop : DataBlock V → (pos : ℕ) → Option (Option (ℕ × V))
  through_hop d pos = do at ← hop t d pos; some (get_elem? at.0.pairs at.1)

  abbrev paired : Option (DataBlock V) → Option (DataBlock V × ℕ)
  paired o = do d' ← o; some (d', 0)

  then_first :
      (o : Option (DataBlock V))
      → (do d' ← o; some (get_elem? d'.pairs 0))
        ≡ (do at ← paired o; some (get_elem? at.0.pairs at.1))
  then_first none = refl
  then_first (some d) = refl

  from_block-hop : (d : DataBlock V) (pos : ℕ) → from_block d pos ≡ through_hop d pos
  unfolding hop
  from_block-hop d pos = elim (Bool-cases (pos == length d.pairs)) [
    | inl e ↦
        let end = get_elem?-at_end d.pairs pos e in
        elim (Bool-cases (d.next_index == 0)) [
          | inl z ↦ rw (e, z) (sym (ap some end))
          | inr z ↦ rw (e, z) (then_first (to_next t d))
        ]
    | inr e ↦ rw e refl
  ]

  through_hop-head :
      (d : DataBlock V) (pos : ℕ) (all : List (ℕ × V))
      → At t d pos all
      → through_hop d pos ≡ some (head? all)
  through_hop-head d pos [] a =
      let e = At-done t d pos a in
      let end = get_elem?-at_end d.pairs pos e.0 in rw (hop_done t d pos a) (ap some end)
  through_hop-head d pos (x ∷ all) a =
      let m = At-More t d pos x all a in rw m.hopped (ap some m.found)

  -- `lower_bound` returns the first pair whose key is not below the given one, if there is one, even
  -- where it stands at the begin of the next data block.
  pub lower_bound-head :
      (fuel k : ℕ) (all : List (ℕ × V))
      → HoldsPairs fuel t all
      → lower_bound_in fuel t k ≡ some (head? (from k all))
  unfolding lower_bound_in
  lower_bound-head fuel k all hp = elim (HoldsPairs-Sought t fuel k all hp) [
    | inl n ↦ rw (n.0, n.1) refl
    | inr q ↦
        rw (q.found, q.got)
          (from_block-hop q.block (lower_bound q.block.pairs k)
            ∙ through_hop-head q.block (lower_bound q.block.pairs k) (from k all) q.at)
  ]
