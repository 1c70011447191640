-- ===== src/Ring/Reposition.antt =====
-- `reposition` and `resize` of Base/Buffer/src/RingBufferWrapper.cpp.
use mathlib.Core.Path.{subst}
use tiny_backend.Prelude.{
  ℕ, ◌+◌, ◌-◌, ◌≤◌, ◌<◌, ◌≡◌, refl, ◌∙◌, true, false, ◌&&◌, Option, none, some, List, ◌++◌, length,
  some, get_elem?, drop, ltb, leb, ◌==◌, if◌then◌else◌, arith, length-take, length-drop, Bool-cases,
  inl, inr, Option-cases, leb→le,
}
use tiny_backend.Ring.{Ring, slice, memcpy}
use tiny_backend.Ring.Cells.{
  get_elem?-take, get_elem?-drop, get_elem?-append, length-memcpy, get_elem?-memcpy, cells_ext,
}
use tiny_backend.Ring.Inv.{IsValid, contents, wrap, contents_cell}
use tiny_backend.Ring.Arrays.{memcpy_within, repositioned, reposition}

-- The postcondition of what is defined.
abbrev pub Defined {ℓ} : {A : Type ℓ} → (A → Type 0) → Option A → Type 0
Defined P none = Unit
Defined P (some a) = P a

module _ {r : Ring} (v : IsValid r) where
  slice_cell :
      (at n i : ℕ)
      → get_elem? (slice r.buf at n) i ≡ (if ltb i n then get_elem? r.buf (at + i) else none)
  slice_cell at n i = ground (arith, get_elem?-take n (drop at r.buf) i, get_elem?-drop at r.buf i)

  length-slice : (at n : ℕ) → at + n ≤ r.size → length (slice r.buf at n) ≡ n
  length-slice at n h = omega (arith, length-take n (drop at r.buf), length-drop at r.buf)

  -- The buffer begins with the bytes of the ring.
  record Fronted (buf : List ℕ) : Type 0 where
    same_size : length buf ≡ r.size
    cells : (i : ℕ) → i < r.readable → get_elem? buf i ≡ get_elem? r.buf (wrap r r.read_at i)

  Fronted-straight :
      r.read_at + r.readable ≤ r.size → Fronted (memcpy r.buf 0 (slice r.buf r.read_at r.readable))
  Fronted-straight h =
      let n = length-slice r.read_at r.readable h in
      record {
        same_size =
            length-memcpy r.buf 0 (slice r.buf r.read_at r.readable) (omega (arith, n)) ∙ v.storage;
        cells = λ i hi. ground (
          arith,
          n,
          get_elem?-memcpy r.buf 0 (slice r.buf r.read_at r.readable) i,
          slice_cell r.read_at r.readable i,
        );
      }

  -- The piece at the start of the buffer is moved behind the other, which is put before it.
  Fronted-tail_first :
      (len another : ℕ)
      → len ≡ r.size - r.read_at
      → another + len ≡ r.readable
      → Fronted (memcpy (memcpy r.buf len (slice r.buf 0 another)) 0 (slice r.buf r.read_at len))
  Fronted-tail_first len another e e' =
      let n = length-slice 0 another (omega arith) in
      let m = length-slice r.read_at len (omega arith) in
      let moved = memcpy r.buf len (slice r.buf 0 another) in
      let k : length moved ≡ r.size =
        length-memcpy r.buf len (slice r.buf 0 another) (omega (arith, n)) ∙ v.storage in
      record {
        same_size = length-memcpy moved 0 (slice r.buf r.read_at len) (omega (arith, k, m)) ∙ k;
        cells = λ i hi. ground (
          arith,
          n,
          m,
          k,
          get_elem?-memcpy moved 0 (slice r.buf r.read_at len) i,
          get_elem?-memcpy r.buf len (slice r.buf 0 another) i,
          slice_cell r.read_at len i,
          slice_cell 0 another (i - len),
        );
      }

  -- The other piece is put to the start, and that one behind it.
  Fronted-head_first :
      (len another : ℕ)
      → len ≡ r.size - r.read_at
      → another + len ≡ r.readable
      → Fronted (memcpy (memcpy r.buf 0 (slice r.buf r.read_at len)) len (slice r.buf 0 another))
  Fronted-head_first len another e e' =
      let n = length-slice 0 another (omega arith) in
      let m = length-slice r.read_at len (omega arith) in
      let moved = memcpy r.buf 0 (slice r.buf r.read_at len) in
      let k : length moved ≡ r.size =
        length-memcpy r.buf 0 (slice r.buf r.read_at len) (omega (arith, m)) ∙ v.storage in
      record {
        same_size = length-memcpy moved len (slice r.buf 0 another) (omega (arith, k, n)) ∙ k;
        cells = λ i hi. ground (
          arith,
          n,
          m,
          k,
          get_elem?-memcpy moved len (slice r.buf 0 another) i,
          get_elem?-memcpy r.buf 0 (slice r.buf r.read_at len) i,
          slice_cell r.read_at len i,
          slice_cell 0 another (i - len),
        );
      }

  Fronted-contents :
      (buf : List ℕ)
      → Fronted buf
      → contents (record r { buf = buf; read_at = 0; write_at = r.readable }) ≡ contents r
  Fronted-contents buf f = cells_ext _ _ (λ i. ground (
    arith,
    contents_cell v i,
    f.cells i,
    get_elem?-take r.readable (buf ++ buf) i,
    get_elem?-append buf buf i,
    f.same_size,
  ))

  Fronted-IsValid :
      (buf : List ℕ)
      → Fronted buf
      → r.readable < r.size
      → IsValid (record r { buf = buf; read_at = 0; write_at = r.readable })
  Fronted-IsValid buf f h = record {
    storage = f.same_size;
    some_room = v.some_room;
    small = v.small;
    read_in = v.some_room;
    fits = v.fits;
    write_is = ground arith;
  }

  repositioned-Fronted : Defined Fronted (repositioned r)
  unfolding repositioned memcpy_within
  repositioned-Fronted =
      let len = r.size - r.read_at in
      let another = r.readable - len in
      elim (Bool-cases (leb (r.read_at + r.readable) r.size)) [
        | inl straight ↦ rw straight (Fronted-straight (leb→le _ _ straight))
        | inr split ↦
            let sum : another + len ≡ r.readable = ground arith in
            rw split (elim (Bool-cases (ltb len another)) [
              | inl longer ↦
                  rw longer (elim (Bool-cases (ltb 0 (len + another) && ltb len (0 + another))) [
                    | inl overlap ↦ rw overlap tt
                    | inr apart ↦ rw apart (Fronted-tail_first len another refl sum)
                  ])
              | inr shorter ↦
                  rw shorter
                    (elim (Bool-cases (ltb r.read_at (0 + len) && ltb 0 (r.read_at + len))) [
                      | inl overlap ↦ rw overlap tt
                      | inr apart ↦ rw apart (Fronted-head_first len another refl sum)
                    ])
            ])
      ]

  -- A `reposition` that is defined keeps the bytes of the ring and moves them to the start of the
  -- buffer; if the ring is not full, it keeps the invariant too.
  pub reposition-contents :
      Defined
        (λ r'. (contents r' ≡ contents r) × (r'.read_at ≡ 0) × (r.readable < r.size → IsValid r'))
        (reposition r)
  unfolding reposition
  reposition-contents = elim (Bool-cases (r.read_at == 0)) [
    | inl there ↦ rw there (refl, ground arith, λ h. v)
    | inr away ↦ rw away (elim (Option-cases (repositioned r)) [
      | inl undefined ↦ rw undefined tt
      | inr (buf, e) ↦
          let f : Fronted buf = subst (Defined Fronted) e repositioned-Fronted in
          rw e (Fronted-contents buf f, refl, λ h. Fronted-IsValid buf f h)
    ])
  ]

  -- `reposition` copies over itself by `memcpy` when the bytes run past the end of the buffer and the
  -- part behind the end is the longer one: its behaviour is then undefined.
  pub reposition_overlap :
      r.size < r.read_at + r.readable
      → r.size - r.read_at < r.readable - (r.size - r.read_at)
      → reposition r ≡ none
  unfolding reposition repositioned memcpy_within
  reposition_overlap h h' =
      let len = r.size - r.read_at in
      let another = r.readable - len in
      let away : (r.read_at == 0) ≡ false = ground arith in
      let split : leb (r.read_at + r.readable) r.size ≡ false = ground arith in
      let longer : ltb len another ≡ true = ground arith in
      let overlap : (ltb 0 (len + another) && ltb len (0 + another)) ≡ true = ground arith in
      rw (away, split, longer, overlap)
