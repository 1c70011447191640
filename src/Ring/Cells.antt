-- ===== src/Ring/Cells.antt =====
-- Lists by their cells: what `take`, `drop`, `++` and `memcpy` do to each index.
use tiny_backend.Prelude.{
  ℕ, zero, suc, ◌+◌, ◌-◌, ◌≤◌, ◌≡◌, refl, ap, ap₂, none, List, [], ◌∷◌, ◌++◌, length, get_elem?,
  take, drop, ltb, if◌then◌else◌, arith, length-append, length-take, length-drop,
}
use tiny_backend.Ring.{memcpy}

module _ {ℓ} {A : Type ℓ} where
  pub get_elem?-take :
      (n : ℕ) (xs : List A) (i : ℕ)
      → get_elem? (take n xs) i ≡ (if ltb i n then get_elem? xs i else none)
  get_elem?-take zero xs i = ground arith
  get_elem?-take (suc n) [] i = ground arith
  get_elem?-take (suc n) (x ∷ xs) zero = ground arith
  get_elem?-take (suc n) (x ∷ xs) (suc i) = ground (arith, get_elem?-take n xs i)

  pub get_elem?-drop :
      (n : ℕ) (xs : List A) (i : ℕ) → get_elem? (drop n xs) i ≡ get_elem? xs (n + i)
  get_elem?-drop zero xs i = ap (get_elem? xs) (omega arith)
  get_elem?-drop (suc n) [] i = refl
  get_elem?-drop (suc n) (x ∷ xs) i = ground (arith, get_elem?-drop n xs i)

  pub get_elem?-append :
      (xs ys : List A) (i : ℕ)
      → get_elem? (xs ++ ys) i
        ≡ (if ltb i (length xs) then get_elem? xs i else get_elem? ys (i - length xs))
  get_elem?-append [] ys i = ground arith
  get_elem?-append (x ∷ xs) ys zero = ground arith
  get_elem?-append (x ∷ xs) ys (suc i) = ground (arith, get_elem?-append xs ys i)

  pub get_elem?_beyond : (xs : List A) (i : ℕ) → length xs ≤ i → get_elem? xs i ≡ none
  get_elem?_beyond [] i h = refl
  get_elem?_beyond (x ∷ xs) zero h = absurd (omega arith)
  get_elem?_beyond (x ∷ xs) (suc i) h = get_elem?_beyond xs i (omega arith)

  -- Lists with the same cells are equal.
  pub cells_ext : (xs ys : List A) → ((i : ℕ) → get_elem? xs i ≡ get_elem? ys i) → xs ≡ ys
  cells_ext [] [] h = refl
  cells_ext [] (y ∷ ys) h = absurd (cc (h 0))
  cells_ext (x ∷ xs) [] h = absurd (cc (h 0))
  cells_ext (x ∷ xs) (y ∷ ys) h = ap₂ ◌∷◌ (cc (h 0)) (cells_ext xs ys (λ i. h (suc i)))

pub length-memcpy :
    (dest : List ℕ) (at : ℕ) (bytes : List ℕ)
    → at + length bytes ≤ length dest
    → length (memcpy dest at bytes) ≡ length dest
length-memcpy dest at bytes h = omega (
  arith,
  length-append (take at dest) (bytes ++ drop (at + length bytes) dest),
  length-append bytes (drop (at + length bytes) dest),
  length-take at dest,
  length-drop (at + length bytes) dest,
)

pub get_elem?-memcpy :
    (dest : List ℕ) (at : ℕ) (bytes : List ℕ) (i : ℕ)
    → at + length bytes ≤ length dest
    → get_elem? (memcpy dest at bytes) i ≡ (
        if ltb i at
        then get_elem? dest i
        else (if ltb i (at + length bytes) then get_elem? bytes (i - at) else get_elem? dest i))
get_elem?-memcpy dest at bytes i h = ground (
  arith,
  get_elem?-append (take at dest) (bytes ++ drop (at + length bytes) dest) i,
  get_elem?-append bytes (drop (at + length bytes) dest) (i - length (take at dest)),
  get_elem?-take at dest i,
  get_elem?-drop (at + length bytes) dest (i - length (take at dest) - length bytes),
  length-take at dest,
)
