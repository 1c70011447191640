-- ===== src/Ring/Vectors.antt =====
-- The scatter read and the gather write of Base/Buffer/src/RingBufferWrapper.cpp.
use tiny_backend.Prelude.{
  ℕ, zero, suc, ◌+◌, ◌-◌, ◌%◌, ◌<◌, ◌^◌, ◌≡◌, refl, ◌∙◌, sym, ap, Option, some, List, [], ◌∷◌, ◌++◌,
  length, take, drop, ◌==◌, arith, length-take, length-drop, min, Bool-cases, inl, inr,
}
use tiny_backend.Ring.{Ring, add32}
use tiny_backend.Ring.Cells.{
  get_elem?-take, get_elem?-drop, get_elem?-append, get_elem?_beyond, cells_ext,
}
use tiny_backend.Ring.Inv.{IsValid, contents, length-contents}
use tiny_backend.Ring.Queue.{read-contents}
use tiny_backend.Ring.Arrays.{read_vector}

abbrev pub sum : List ℕ → ℕ
sum [] = 0
sum (n ∷ ns) = n + sum ns

-- Each size is a uint32.
abbrev pub AreSmall : List ℕ → Type 0
AreSmall [] = Unit
AreSmall (n ∷ ns) = (n < 2 ^ 32) × AreSmall ns

take-add : (n m : ℕ) (xs : List ℕ) → take n xs ++ take m (drop n xs) ≡ take (n + m) xs
take-add n m xs = cells_ext _ _ (λ i. ground (
  arith,
  get_elem?-append (take n xs) (take m (drop n xs)) i,
  get_elem?-take n xs i,
  get_elem?-take m (drop n xs) (i - length (take n xs)),
  get_elem?-drop n xs (i - length (take n xs)),
  get_elem?-take (n + m) xs i,
  length-take n xs,
  get_elem?_beyond xs i,
  get_elem?_beyond xs (n + (i - length (take n xs))),
))

drop-add : (n m : ℕ) (xs : List ℕ) → drop m (drop n xs) ≡ drop (n + m) xs
drop-add n m xs = cells_ext _ _ (λ i. ground (
  arith,
  get_elem?-drop m (drop n xs) i,
  get_elem?-drop n xs (m + i),
  get_elem?-drop (n + m) xs i,
))

take-none : (n : ℕ) (xs : List ℕ) → length xs ≡ 0 → (take n xs ≡ []) × (drop n xs ≡ [])
take-none zero [] h = (refl, refl)
take-none (suc n) [] h = (refl, refl)
take-none n (x ∷ xs) h = absurd (omega arith)

-- What a scatter read of `n` bytes in all leaves, after `read_len` bytes that were read before.
record Scattered (r : Ring) (n read_len : ℕ) (result : Option (ℕ × List ℕ × Ring)) : Type 0 where
  after : Ring
  returned : result ≡ some (read_len + min n r.readable, take n (contents r), after)
  rest : contents after ≡ drop n (contents r)
  valid : IsValid after

drained_Scattered :
    {r : Ring}
    → IsValid r
    → (n read_len : ℕ) → r.readable ≡ 0
    → Scattered r n read_len (some (read_len, [], r))
drained_Scattered {r} v n read_len h =
    let empty : length (contents r) ≡ 0 = omega (arith, length-contents v) in
    let (t, d) = take-none n (contents r) empty in
    let all = (take-none 0 (contents r) empty).1 in
    let none_read : read_len + min n r.readable ≡ read_len = omega arith in
    record { after = r; returned = rw (none_read, t); rest = all ∙ sym d; valid = v }

left_after :
    {r after : Ring}
    → IsValid r
    → (n : ℕ) → contents after ≡ drop n (contents r)
    → IsValid after
    → after.readable ≡ r.readable - min n r.readable
left_after {r} {after} v n e w =
    omega (arith, length-contents v, length-contents w, ap length e, length-drop n (contents r))

read_vector-Scattered :
    (sizes : List ℕ) (r : Ring) (read_len : ℕ)
    → IsValid r
    → AreSmall sizes
    → read_len + r.readable < 2 ^ 32
    → Scattered r (sum sizes) read_len (read_vector r sizes read_len)
unfolding read_vector
read_vector-Scattered [] r read_len v small h = record {
  after = r;
  returned = ap (λ n. some (n, [], r)) (omega arith);
  rest = refl;
  valid = v;
}
read_vector-Scattered (n ∷ sizes) r read_len v small h = elim (Bool-cases (n == 0)) [
  | inl empty ↦
      let z : n ≡ 0 = ground arith in
      let e : n + sum sizes ≡ sum sizes = omega arith in
      rw (empty, e) (read_vector-Scattered sizes r read_len v small.1 h)
  | inr more ↦ elim (Bool-cases (r.readable == 0)) [
    | inl drained ↦ rw (more, drained) (drained_Scattered v (n + sum sizes) read_len (ground arith))
    | inr there ↦
        let (after, returned, rest, valid) = read-contents v n in
        let m = min n r.readable in
        let fits : n % 2 ^ 32 ≡ n = omega (arith, small.0) in
        let left : after.readable ≡ r.readable - m = left_after v n rest valid in
        let acc : add32 read_len m ≡ read_len + m = omega arith in
        let ih = read_vector-Scattered sizes after (read_len + m) valid small.1 (omega arith) in
        rw (more, there, fits, returned, acc, ih.returned)
          (record {
            after = ih.after;
            returned =
                rw (rest, take-add n (sum sizes) (contents r))
                  (ap (λ k. some (k, take (n + sum sizes) (contents r), ih.after))
                    (omega (arith, left)));
            rest = ih.rest ∙ ap (drop (sum sizes)) rest ∙ drop-add n (sum sizes) (contents r);
            valid = ih.valid;
          })
  ]
]

-- A scatter read into arrays whose sizes are uint32s is one read of all their sizes together: it
-- returns how many bytes there were of them, fills the arrays with those bytes in order, and leaves
-- the rest.
pub read_vector-contents :
    {r : Ring} (sizes : List ℕ)
    → IsValid r
    → AreSmall sizes
    → (r' : Ring) × (read_vector r sizes 0
        ≡ some (min (sum sizes) r.readable, take (sum sizes) (contents r), r'))
      × (contents r' ≡ drop (sum sizes) (contents r))
      × IsValid r'
read_vector-contents {r} sizes v small =
    let s = read_vector-Scattered sizes r 0 v small (omega (arith, v.small, v.fits)) in
    let z : 0 + min (sum sizes) r.readable ≡ min (sum sizes) r.readable = omega arith in
    (s.after, s.returned ∙ rw z, s.rest, s.valid)
