-- ===== src/Ring/Scatter.antt =====
-- What the arrays that are read from a ring cover (Ring/Arrays).
use mathlib.Core.List.{append-nil}
use tiny_backend.Prelude.{
  ℕ, zero, suc, ◌+◌, ◌-◌, ◌≤◌, ◌<◌, ◌^◌, ◌≡◌, refl, ◌∙◌, sym, none, List, [], ◌∷◌, ◌++◌, length,
  get_elem?, take, drop, ltb, leb, ◌==◌, if◌then◌else◌, arith, length-take, length-drop, min,
  Bool-cases, inl, inr, leb→le,
}
use tiny_backend.Ring.{Ring, add32, slice, continuously_readable}
use tiny_backend.Ring.Cells.{
  get_elem?-take, get_elem?-drop, get_elem?-append, get_elem?_beyond, cells_ext,
}
use tiny_backend.Ring.Inv.{IsValid, contents, wrap, contents_cell, length-contents}
use tiny_backend.Ring.Peek.{nothing_past}
use tiny_backend.Ring.Arrays.{Piece, skip, gather, two_pieces, read_array}

-- Each piece lies in the buffer.
abbrev InBuffer : List ℕ → List Piece → Type 0
InBuffer buf [] = Unit
InBuffer buf ((at, len) ∷ pieces) = (at + len ≤ length buf) × InBuffer buf pieces

pub drop-append :
    (xs ys : List ℕ) (k : ℕ) → drop k (xs ++ ys) ≡ drop k xs ++ drop (k - length xs) ys
drop-append xs ys k = cells_ext _ _ (λ i. ground (
  arith,
  get_elem?-drop k (xs ++ ys) i,
  get_elem?-append xs ys (k + i),
  get_elem?-append (drop k xs) (drop (k - length xs) ys) i,
  get_elem?-drop k xs i,
  get_elem?-drop (k - length xs) ys (i - length (drop k xs)),
  length-drop k xs,
))

drop-slice : (buf : List ℕ) (at n k : ℕ) → drop k (slice buf at n) ≡ slice buf (at + k) (n - k)
drop-slice buf at n k = cells_ext _ _ (λ i. ground (
  arith,
  get_elem?-drop k (slice buf at n) i,
  get_elem?-take n (drop at buf) (k + i),
  get_elem?-drop at buf (k + i),
  get_elem?-take (n - k) (drop (at + k) buf) i,
  get_elem?-drop (at + k) buf i,
))

length-slice : (buf : List ℕ) (at n : ℕ) → at + n ≤ length buf → length (slice buf at n) ≡ n
length-slice buf at n h = omega (arith, length-take n (drop at buf), length-drop at buf)

-- To skip bytes of the pieces is to drop them from what the pieces cover.
gather-skip :
    (buf : List ℕ) (pieces : List Piece) (k : ℕ)
    → InBuffer buf pieces
    → gather buf (skip pieces k) ≡ drop k (gather buf pieces)
unfolding skip
gather-skip buf [] zero h = refl
gather-skip buf [] (suc k) h = refl
gather-skip buf ((at, len) ∷ pieces) k h =
    let whole = drop-append (slice buf at len) (gather buf pieces) k in
    let n : length (slice buf at len) ≡ len = length-slice buf at len h.0 in
    elim (Bool-cases (k == 0)) [
      | inl none_skipped ↦ let z : k ≡ 0 = ground arith in rw z
      | inr more ↦ rw more (elim (Bool-cases (ltb len k)) [
        | inl all ↦
            let past : len - k ≡ 0 = ground arith in
            rw (all, whole, drop-slice buf at len k, n, past) (gather-skip buf pieces (k - len) h.1)
        | inr part ↦
            let inside : k - len ≡ 0 = ground arith in
            rw (part, whole, drop-slice buf at len k, n, inside)
      ])
    ]

module _ {r : Ring} (v : IsValid r) where
  two_pieces-InBuffer :
      (n : ℕ) → n ≤ r.readable → InBuffer r.buf (two_pieces r.read_at (continuously_readable r) n)
  two_pieces-InBuffer n h = (ground arith, (ground arith, tt))

  spans_cell :
      (first n i : ℕ)
      → first ≡ min n (r.size - r.read_at)
      → n ≤ r.readable
      → get_elem? (slice r.buf r.read_at first ++ slice r.buf 0 (n - first)) i
        ≡ (if ltb i n then get_elem? r.buf (wrap r r.read_at i) else none)
  spans_cell first n i e h = ground (
    arith,
    get_elem?-append (slice r.buf r.read_at first) (slice r.buf 0 (n - first)) i,
    length-slice r.buf r.read_at first,
    get_elem?-take first (drop r.read_at r.buf) i,
    get_elem?-drop r.read_at r.buf i,
    get_elem?-take (n - first) r.buf (i - first),
  )

  front_cell :
      (n i : ℕ)
      → n ≤ r.readable
      → get_elem? (take n (contents r)) i
        ≡ (if ltb i n then get_elem? r.buf (wrap r r.read_at i) else none)
  front_cell n i h = ground (arith, get_elem?-take n (contents r) i, contents_cell v i)

  -- The first piece ends where the buffer does, or covers all.
  gather-two_pieces :
      (n : ℕ)
      → n ≤ r.readable
      → gather r.buf (two_pieces r.read_at (continuously_readable r) n) ≡ take n (contents r)
  gather-two_pieces n h =
      let first : ℕ = if ltb n (continuously_readable r) then n else continuously_readable r in
      let e : first ≡ min n (r.size - r.read_at) = ground arith in
      rw append-nil (cells_ext _ _ (λ i. spans_cell first n i e h ∙ sym (front_cell n i h)))

  -- The pieces of `read_array` cover exactly the bytes from the offset on, as many as were asked for
  -- and are there, in their order, if the sum of the offset and the size is a uint32.
  pub read_array-contents :
      (n offset : ℕ)
      → offset + n < 2 ^ 32
      → gather r.buf (read_array r n offset) ≡ take n (drop offset (contents r))
  unfolding read_array
  read_array-contents n offset h =
      let m = min n (r.readable - offset) in
      elim (Bool-cases (leb r.readable offset)) [
        | inl past ↦ rw (past, nothing_past v n offset (leb→le _ _ past))
        | inr inside ↦
            let e : (if ltb r.readable (add32 offset n) then r.readable - offset else n) ≡ m =
              ground arith in
            let w : add32 m offset ≡ m + offset = omega arith in
            rw
              (
                inside,
                e,
                w,
                gather-skip r.buf (two_pieces r.read_at (continuously_readable r) (m + offset))
                    offset (two_pieces-InBuffer (m + offset) (ground arith)),
                gather-two_pieces (m + offset) (ground arith),
              )
              (cells_ext _ _ (λ i. ground (
                arith,
                get_elem?-drop offset (take (m + offset) (contents r)) i,
                get_elem?-take (m + offset) (contents r) (offset + i),
                get_elem?-take n (drop offset (contents r)) i,
                get_elem?-drop offset (contents r) i,
                get_elem?_beyond (contents r) (offset + i),
                length-contents v,
              )))
      ]
