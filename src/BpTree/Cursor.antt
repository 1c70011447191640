-- ===== src/BpTree/Cursor.antt =====
-- Base/BPTree_impls/BPTree.hpp: the loops along the data blocks against the pairs that lie ahead.
use tiny_backend.Prelude.{
  ℕ, zero, suc, ◌≤◌, ◌<◌, ◌≡◌, refl, sym, ap, ◌∙◌, true, false, not, ◌||◌, Option, none, some, List,
  [], ◌∷◌, ◌++◌, length, get_elem?, drop, ltb, ◌==◌, if◌then◌else◌, inl, inr, Bool-cases, ltb→lt,
  arith,
}
use tiny_backend.BpTree.{DataBlock}
use tiny_backend.BpTree.Pairs.{key_at}
use tiny_backend.BpTree.Store.{Tree, get_data}
use tiny_backend.BpTree.Search.{hop, have_next}
use tiny_backend.BpTree.Shape.{concat_map, head_index, IsLinked}

module _ {ℓ} {V : Type ℓ} where
  -- The pairs at the start with a key below `k`, and those behind them.
  abbrev pub until : ℕ → List (ℕ × V) → List (ℕ × V)
  until k [] = []
  until k (x ∷ es) = let rest = until k es in if ltb x.0 k then x ∷ rest else []

  abbrev pub from : ℕ → List (ℕ × V) → List (ℕ × V)
  from k [] = []
  from k (x ∷ es) = let rest = from k es in if ltb x.0 k then rest else x ∷ es

  abbrev pub head? : List (ℕ × V) → Option (ℕ × V)
  head? [] = none
  head? (x ∷ es) = some x

  -- An iterator at `pos` of a data block, with the pairs `all` from there on.
  pub record At (t : Tree V) (d : DataBlock V) (pos : ℕ) (all : List (ℕ × V)) : Type ℓ where
    pub index : ℕ
    pub ahead : List (ℕ × List (ℕ × V))
    pub next : d.next_index ≡ head_index ahead
    pub linked : IsLinked t.blocks index ahead
    pub inside : pos ≤ length d.pairs
    pub whole : all ≡ drop pos d.pairs ++ concat_map (λ l. l.1) ahead

  -- One more pair: where `hop` leads, and the iterator behind it.
  pub record More (t : Tree V) (d : DataBlock V) (pos : ℕ) (x : ℕ × V) (xs : List (ℕ × V))
      : Type ℓ where
    pub block : DataBlock V
    pub place : ℕ
    pub hopped : hop t d pos ≡ some (block, place)
    pub found : get_elem? block.pairs place ≡ some x
    pub key : key_at block.pairs place ≡ x.0
    pub inside : (place == length block.pairs) ≡ false
    pub ready : (not (pos == length d.pairs) || have_next d) ≡ true
    pub then_at : At t block (suc place) xs

  -- The pair at a place, if there is one.
  record Here (ps : List (ℕ × V)) (pos : ℕ) : Type ℓ where
    pair : ℕ × V
    found : get_elem? ps pos ≡ some pair
    key : key_at ps pos ≡ pair.0
    rest : drop pos ps ≡ pair ∷ drop (suc pos) ps

  here : (ps : List (ℕ × V)) (pos : ℕ) → pos < length ps → Here ps pos
  here [] pos h = absurd (omega arith)
  here (x ∷ ps) zero h = record { pair = x; found = refl; key = refl; rest = refl }
  here (x ∷ ps) (suc pos) h =
      let r = here ps pos (omega arith) in
      record { pair = r.pair; found = r.found; key = r.key; rest = r.rest }

  drop_beyond : (ps : List (ℕ × V)) (pos : ℕ) → length ps ≤ pos → drop pos ps ≡ []
  drop_beyond [] zero h = refl
  drop_beyond [] (suc pos) h = refl
  drop_beyond (x ∷ ps) zero h = absurd (omega arith)
  drop_beyond (x ∷ ps) (suc pos) h = drop_beyond ps pos (omega arith)

  cons_inj : {x y : ℕ × V} {xs ys : List (ℕ × V)} → x ∷ xs ≡ y ∷ ys → (x ≡ y) × (xs ≡ ys)
  cons_inj e = (ground arith, ground arith)

  cons_nil : {x : ℕ × V} {xs : List (ℕ × V)} → [] ≡ x ∷ xs → ⊥
  cons_nil e = ground arith

  at_pair :
      (t : Tree V) (d : DataBlock V) (pos : ℕ) (x : ℕ × V) (xs : List (ℕ × V))
      → At t d pos (x ∷ xs)
      → pos < length d.pairs
      → More t d pos x xs
  unfolding hop
  at_pair t d pos x xs a h =
      let r = here d.pairs pos h in
      let e = cons_inj (a.whole ∙ ap (λ l. l ++ concat_map (λ l. l.1) a.ahead) r.rest) in
      let inner : (pos == length d.pairs) ≡ false = ground arith in
      record {
        block = d;
        place = pos;
        hopped = rw inner refl;
        found = r.found ∙ ap some (sym e.0);
        key = r.key ∙ ap (λ x. x.0) (sym e.0);
        inside = inner;
        ready = rw inner refl;
        then_at = record {
          index = a.index;
          ahead = a.ahead;
          next = a.next;
          linked = a.linked;
          inside = h;
          whole = e.1;
        };
      }

  at_end :
      (t : Tree V) (d : DataBlock V) (pos : ℕ) (x : ℕ × V) (xs : List (ℕ × V)) (index : ℕ)
      (ahead : List (ℕ × List (ℕ × V)))
      → d.next_index ≡ head_index ahead
      → IsLinked t.blocks index ahead
      → pos ≡ length d.pairs
      → x ∷ xs ≡ concat_map (λ l. l.1) ahead
      → More t d pos x xs
  unfolding hop
  at_end t d pos x xs index [] n l h e = absurd (ground arith)
  at_end t d pos x xs index ((i, []) ∷ ls) n l h e = absurd (l.2 refl)
  at_end t d pos x xs index ((i, y ∷ ys) ∷ ls) n l h e =
      let out : (pos == length d.pairs) ≡ true = ground arith in
      let on : have_next d ≡ true = ground (arith, l.1) in
      let b : DataBlock V = record {
        prev_index = index;
        next_index = head_index ls;
        pairs = y ∷ ys;
      } in
      let got : get_data t d.next_index ≡ some b = rw (n, l.0) refl in
      let q = cons_inj e in
      record {
        block = b;
        place = 0;
        hopped = rw (out, on, got) refl;
        found = ap some (sym q.0);
        key = ap (λ x. x.0) (sym q.0);
        inside = ground arith;
        ready = rw (out, on) refl;
        then_at = record {
          index = i;
          ahead = ls;
          next = refl;
          linked = l.3;
          inside = omega arith;
          whole = q.1;
        };
      }

  pub At-More :
      (t : Tree V) (d : DataBlock V) (pos : ℕ) (x : ℕ × V) (xs : List (ℕ × V))
      → At t d pos (x ∷ xs)
      → More t d pos x xs
  At-More t d pos x xs a = elim (Bool-cases (ltb pos (length d.pairs))) [
    | inl l ↦ at_pair t d pos x xs a (ltb→lt _ _ l)
    | inr l ↦ at_end t d pos x xs a.index a.ahead a.next a.linked (ground (arith, a.inside)) (
        a.whole
        ∙ ap (λ l. l ++ concat_map (λ l. l.1) a.ahead) (drop_beyond d.pairs pos (ground arith)))
  ]

  ahead_empty :
      (t : Tree V) (index : ℕ) (ahead : List (ℕ × List (ℕ × V)))
      → IsLinked t.blocks index ahead
      → concat_map (λ l. l.1) ahead ≡ []
      → ahead ≡ []
  ahead_empty t index [] l e = refl
  ahead_empty t index ((i, []) ∷ ls) l e = absurd (l.2 refl)
  ahead_empty t index ((i, y ∷ ys) ∷ ls) l e = absurd (ground arith)

  pub At-done :
      (t : Tree V) (d : DataBlock V) (pos : ℕ)
      → At t d pos []
      → ((pos == length d.pairs) ≡ true) × (have_next d ≡ false)
  At-done t d pos a = elim (Bool-cases (ltb pos (length d.pairs))) [
    | inl l ↦
        let r = here d.pairs pos (ltb→lt _ _ l) in
        absurd (cons_nil (a.whole ∙ ap (λ l. l ++ concat_map (λ l. l.1) a.ahead) r.rest))
    | inr l ↦
        let gone = ahead_empty t a.index a.ahead a.linked (
          sym (
            a.whole
            ∙ ap (λ l. l ++ concat_map (λ l. l.1) a.ahead)
                (drop_beyond d.pairs pos (ground arith)))) in
        (ground (arith, a.inside), ground (arith, a.next ∙ ap head_index gone))
  ]
