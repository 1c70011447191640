-- ===== src/Ring/Skipped.antt =====
-- `try_read` over arrays of Base/Buffer/src/RingBufferWrapper.cpp against one `try_read`.
use tiny_backend.Prelude.{
  ℕ, ◌+◌, ◌-◌, ◌%◌, ◌^◌, ◌≤◌, ◌<◌, min, ◌≡◌, inl, inr, refl, sym, ap₂, ◌∙◌, List, [], ◌∷◌, ◌++◌,
  length, take, drop, leb, ◌==◌, arith, Bool-cases, leb→le, length-take, length-drop,
}
use tiny_backend.Ring.{Ring, add32, try_read}
use tiny_backend.Ring.Cells.{
  cells_ext, get_elem?-append, get_elem?-take, get_elem?-drop, get_elem?_beyond,
}
use tiny_backend.Ring.Inv.{IsValid, contents, length-contents}
use tiny_backend.Ring.Peek.{nothing_past, try_read-contents}
use tiny_backend.Ring.Vectors.{sum}
use tiny_backend.Ring.Offsets.{try_read_vector}

module _ {r : Ring} (v : IsValid r) where
  -- What is read behind a first part is what follows it.
  join_parts :
      (n rest at : ℕ)
      → at ≤ r.readable
      → take n (drop at (contents r))
          ++ take rest (drop (at + min n (r.readable - at)) (contents r))
        ≡ take (n + rest) (drop at (contents r))
  join_parts n rest at h =
      let c = contents r in
      let len = length-contents v in
      cells_ext _ _ (λ i. ground (
        arith,
        get_elem?-append (take n (drop at c)) (take rest (drop (at + min n (r.readable - at)) c)) i,
        get_elem?-take n (drop at c) i,
        get_elem?-drop at c i,
        get_elem?-take (n + rest) (drop at c) i,
        get_elem?-take rest (drop (at + min n (r.readable - at)) c)
            (i - length (take n (drop at c))),
        get_elem?-drop (at + min n (r.readable - at)) c (i - length (take n (drop at c))),
        length-take n (drop at c),
        length-drop at c,
        len,
        get_elem?_beyond c (at + i),
      ))

  try_read_vector-from :
      (sizes : List ℕ) (offset k : ℕ)
      → offset + k + sum sizes < 2 ^ 32
      → try_read_vector r sizes offset k ≡ (
        k + min (sum sizes) (r.readable - (offset + k)),
        take (sum sizes) (drop (offset + k) (contents r)),
      )
  unfolding try_read_vector
  try_read_vector-from [] offset k h = ap₂ (λ a b. (a, b)) (omega arith) refl
  try_read_vector-from (n ∷ sizes) offset k h =
      let at : add32 offset k ≡ offset + k = omega arith in
      elim (Bool-cases (n == 0)) [
        | inl nothing ↦
            let n_is : n ≡ 0 = ground arith in
            let all : n + sum sizes ≡ sum sizes = omega arith in
            rw (nothing, all) (try_read_vector-from sizes offset k (omega arith))
        | inr more ↦ elim (Bool-cases (leb r.readable (offset + k))) [
          | inl past ↦
              rw (more, at, past)
                (ap₂ (λ a b. (a, b)) (omega (arith, leb→le _ _ past))
                  (sym (nothing_past v (n + sum sizes) (offset + k) (leb→le _ _ past))))
          | inr inside ↦
              let m = min n (r.readable - (offset + k)) in
              let cut : n % 2 ^ 32 ≡ n = omega arith in
              let read_is = try_read-contents v n (offset + k) (omega arith) in
              let next : add32 k m ≡ k + m = omega arith in
              let onward = try_read_vector-from sizes offset (k + m) (omega arith) in
              let shift : offset + (k + m) ≡ offset + k + m = omega arith in
              rw (more, at, inside, cut, read_is, next, onward, shift)
                (ap₂ (λ a b. (a, b)) (ground arith)
                  (join_parts n (sum sizes) (offset + k) (ground arith)))
        ]
      ]

  -- A `try_read` over arrays is one `try_read` of all their sizes together, if the sum of the offset
  -- and the sizes is a uint32.
  pub try_read_vector-contents :
      (sizes : List ℕ) (offset : ℕ)
      → offset + sum sizes < 2 ^ 32
      → try_read_vector r sizes offset 0 ≡ try_read r (sum sizes) offset
  try_read_vector-contents sizes offset h =
      let start : offset + 0 ≡ offset = omega arith in
      let read = try_read_vector-from sizes offset 0 (omega arith) in
      (rw start at read)
      ∙ ap₂ (λ a b. (a, b)) (omega arith) refl
      ∙ sym (try_read-contents v (sum sizes) offset h)
