-- ===== src/Ring/Peek.antt =====
-- Reading and changing the bytes of a ring of Base/Buffer/src/RingBufferWrapper.cpp in place.
use tiny_backend.Prelude.{
  zero, suc, true, ap, ◌∷◌, ◌++◌, ℕ, ◌+◌, ◌-◌, ◌≤◌, ◌<◌, ◌^◌, ◌≡◌, refl, ◌∙◌, sym, false, none,
  List, [], length, get_elem?, take, drop, ltb, leb, if◌then◌else◌, arith, length-take, min,
  Bool-cases, inl, inr, leb→le, ltb→lt, ◌%◌,
}
use tiny_backend.Ring.{
  Ring, sub32, forward, read_pieces, write_pieces, memcpy, try_read, change_written,
}
use tiny_backend.Ring.Cells.{
  get_elem?-take, get_elem?-drop, get_elem?-memcpy, get_elem?_beyond, cells_ext,
}
use tiny_backend.Ring.Inv.{
  IsValid, contents, wrap, contents_cell, length-contents, read_pieces_cell, length-write_pieces,
  write_pieces_cell,
}

take-drop : (bytes : List ℕ) (n : ℕ) → take n bytes ++ drop n bytes ≡ bytes
take-drop bytes zero = refl
take-drop [] (suc n) = refl
take-drop (x ∷ bytes) (suc n) = ap (λ l. x ∷ l) (take-drop bytes n)

memcpy-nil : (bytes : List ℕ) (offset : ℕ) → memcpy bytes offset [] ≡ bytes
memcpy-nil bytes offset =
    ap (λ n. take offset bytes ++ drop n bytes) (omega arith) ∙ take-drop bytes offset

module _ {r : Ring} (v : IsValid r) where
  peek_cell :
      (offset n i : ℕ)
      → offset < r.readable
      → n ≤ r.readable - offset
      → get_elem? (read_pieces r (forward r r.read_at offset) n) i
        ≡ (if ltb i n then get_elem? (contents r) (offset + i) else none)
  peek_cell offset n i h hn =
      ground
        (arith, read_pieces_cell v (forward r r.read_at offset) n i, contents_cell v (offset + i))

  pub nothing_past : (n offset : ℕ) → r.readable ≤ offset → take n (drop offset (contents r)) ≡ []
  nothing_past n offset h = cells_ext _ _ (λ i. ground (
    arith,
    get_elem?-take n (drop offset (contents r)) i,
    get_elem?-drop offset (contents r) i,
    get_elem?_beyond (contents r) (offset + i),
    length-contents v,
  ))

  peeked :
      (n offset : ℕ)
      → offset < r.readable
      → read_pieces r (forward r r.read_at offset) (min n (r.readable - offset))
        ≡ take n (drop offset (contents r))
  peeked n offset h = cells_ext _ _ (λ i. ground (
    arith,
    peek_cell offset (min n (r.readable - offset)) i,
    get_elem?-take n (drop offset (contents r)) i,
    get_elem?-drop offset (contents r) i,
    get_elem?_beyond (contents r) (offset + i),
    length-contents v,
  ))

  -- `try_read` returns the bytes from the offset on, as many as were asked for and are there, if the
  -- sum of the offset and the size is a uint32.
  pub try_read-contents :
      (n offset : ℕ)
      → offset + n < 2 ^ 32
      → try_read r n offset ≡ (min n (r.readable - offset), take n (drop offset (contents r)))
  unfolding try_read
  try_read-contents n offset h =
      let m = min n (r.readable - offset) in
      elim (Bool-cases (leb r.readable offset)) [
        | inl past ↦
            let none_left : m ≡ 0 = ground arith in
            rw (past, none_left, nothing_past n offset (leb→le _ _ past))
        | inr inside ↦
            let e : (if ltb r.readable ((offset + n) % 2 ^ 32) then r.readable - offset else n)
                ≡ m =
              ground arith in
            rw (inside, e, peeked n offset (ground arith))
      ]

  abbrev changed : ℕ → List ℕ → Ring
  changed offset bytes = record r { buf = write_pieces r (forward r r.read_at offset) bytes }

  changed-IsValid :
      (offset : ℕ) (bytes : List ℕ)
      → offset + length bytes ≤ r.readable
      → IsValid (changed offset bytes)
  changed-IsValid offset bytes h = record {
    storage = length-write_pieces v (forward r r.read_at offset) bytes (ground arith) (omega arith);
    some_room = v.some_room;
    small = v.small;
    read_in = v.read_in;
    fits = v.fits;
    write_is = v.write_is;
  }

  changed_cell :
      (offset : ℕ) (bytes : List ℕ) (i k : ℕ)
      → offset + length bytes ≤ r.readable
      → i < r.readable
      → k < r.size
      → wrap r (forward r r.read_at offset) k ≡ wrap r r.read_at i
      → get_elem? (contents (changed offset bytes)) i
        ≡ (if ltb k (length bytes) then get_elem? bytes k else get_elem? (contents r) i)
  changed_cell offset bytes i k h hi hk e = ground (
    arith,
    contents_cell (changed-IsValid offset bytes h) i,
    contents_cell v i,
    write_pieces_cell v (forward r r.read_at offset) bytes (wrap r r.read_at i) k,
  )

  changed_before :
      (offset : ℕ) (bytes : List ℕ) (i : ℕ)
      → offset + length bytes ≤ r.readable
      → i < offset
      → get_elem? (contents (changed offset bytes)) i ≡ get_elem? (contents r) i
  changed_before offset bytes i h hi =
      changed_cell offset bytes i (i + r.size - offset) h (omega arith) (omega arith) (ground arith)
      ∙ ground arith

  changed_behind :
      (offset : ℕ) (bytes : List ℕ) (i : ℕ)
      → offset + length bytes ≤ r.readable
      → offset ≤ i
      → i < r.readable
      → get_elem? (contents (changed offset bytes)) i ≡ (
          if ltb (i - offset) (length bytes)
          then get_elem? bytes (i - offset)
          else get_elem? (contents r) i)
  changed_behind offset bytes i h hi hr =
      changed_cell offset bytes i (i - offset) h hr (omega arith) (ground arith)

  changed_beyond :
      (offset : ℕ) (bytes : List ℕ) (i : ℕ)
      → offset + length bytes ≤ r.readable
      → r.readable ≤ i
      → (get_elem? (contents (changed offset bytes)) i ≡ none) × (get_elem? (contents r) i ≡ none)
  changed_beyond offset bytes i h hr = (
    get_elem?_beyond (contents (changed offset bytes)) i
        (omega (arith, length-contents (changed-IsValid offset bytes h))),
    get_elem?_beyond (contents r) i (omega (arith, length-contents v)),
  )

  changed-contents :
      (offset : ℕ) (bytes : List ℕ)
      → offset + length bytes ≤ r.readable
      → contents (changed offset bytes) ≡ memcpy (contents r) offset bytes
  changed-contents offset bytes h = cells_ext _ _ (λ i.
      let spliced =
        get_elem?-memcpy (contents r) offset bytes i (omega (arith, length-contents v)) in
      elim (Bool-cases (ltb i offset)) [
        | inl before ↦
            changed_before offset bytes i h (ltb→lt _ _ before) ∙ sym (spliced ∙ rw before)
        | inr behind ↦ elim (Bool-cases (ltb i r.readable)) [
          | inl there ↦
              changed_behind offset bytes i h (ground arith) (ltb→lt _ _ there)
              ∙ sym (spliced ∙ rw behind (ground arith))
          | inr none_there ↦
              let (a, b) = changed_beyond offset bytes i h (ground arith) in
              a ∙ sym (spliced ∙ rw behind (ground (arith, b)))
        ]
      ])

  -- What `change_written` does.
  abbrev Changed : ℕ → List ℕ → Type 0
  Changed offset bytes =
      let (n, r') = change_written r offset bytes in
      (n ≡ min (length bytes) (r.readable - offset))
      × (contents r' ≡ memcpy (contents r) offset (take n bytes))
      × IsValid r'

  change_inside :
      (offset : ℕ) (bytes : List ℕ)
      → offset ≤ r.readable
      → offset + length bytes < 2 ^ 32
      → Changed offset bytes
  unfolding change_written
  change_inside offset bytes h h' =
      let m = min (length bytes) (r.readable - offset) in
      let e : (if ltb r.readable ((offset + length bytes) % 2 ^ 32)
            then sub32 r.readable offset
            else length bytes)
          ≡ m =
        ground arith in
      let inside : ltb r.readable offset ≡ false = ground arith in
      let short : offset + length (take m bytes) ≤ r.readable =
        omega (arith, length-take m bytes) in
      rw (e, inside)
        (
          refl,
          changed-contents offset (take m bytes) short,
          changed-IsValid offset (take m bytes) short,
        )

  change_outside : (offset : ℕ) (bytes : List ℕ) → r.readable < offset → Changed offset bytes
  unfolding change_written
  change_outside offset bytes h =
      let outside : ltb r.readable offset ≡ true = ground arith in
      let none_left : min (length bytes) (r.readable - offset) ≡ 0 = ground arith in
      rw outside (sym none_left, sym (memcpy-nil (contents r) offset), v)

  -- `change_written` overwrites bytes that are there from the offset on, as many as there are behind
  -- it, and no other, if the sum of the offset and the size is a uint32. From an offset past the
  -- bytes that are there it changes nothing and returns 0.
  pub change_written-contents :
      (offset : ℕ) (bytes : List ℕ)
      → offset + length bytes < 2 ^ 32
      → let (n, r') = change_written r offset bytes in
        (n ≡ min (length bytes) (r.readable - offset))
        × (contents r' ≡ memcpy (contents r) offset (take n bytes))
        × IsValid r'
  change_written-contents offset bytes h = elim (Bool-cases (leb offset r.readable)) [
    | inl inside ↦ change_inside offset bytes (leb→le _ _ inside) h
    | inr outside ↦ change_outside offset bytes (ground arith)
  ]
