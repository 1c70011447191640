-- ===== src/Ring/Queue.antt =====
-- A ring of Base/Buffer/src/RingBufferWrapper.cpp refines a bounded queue of bytes: `read` takes
-- from its front, `write` adds to its back.
use tiny_backend.Prelude.Partial.{◌>>=◌}
use tiny_backend.Prelude.{
  ℕ, ◌+◌, ◌-◌, ◌≤◌, ◌<◌, ◌≡◌, ◌∙◌, sym, true, none, some, List, ◌++◌, length, get_elem?, take, drop,
  ltb, leb, if◌then◌else◌, arith, length-take, min, Bool-cases, inl, inr, ltb→lt, lt→ltb, tests,
}
use tiny_backend.Ring.{
  Ring, forward, writable_len, read_pieces, write_pieces, read_advance, read_back, write_advance,
  write_back, read, write,
}
use tiny_backend.Ring.Cells.{
  get_elem?-take, get_elem?-drop, get_elem?-append, get_elem?_beyond, cells_ext,
}
use tiny_backend.Ring.Inv.{
  IsValid, contents, wrap, contents_cell, length-contents, read_pieces_cell, length-write_pieces,
  write_pieces_cell,
}

abbrev read_advanced : Ring → ℕ → Ring
read_advanced r step = record r { read_at = forward r r.read_at step; readable = r.readable - step }

abbrev write_advanced : Ring → ℕ → Ring
write_advanced r step = record r {
  write_at = forward r r.write_at step;
  readable = r.readable + step;
}

drop-min : (n : ℕ) (xs : List ℕ) {k : ℕ} → length xs ≡ k → drop (min n k) xs ≡ drop n xs
drop-min n xs {k} e = cells_ext _ _ (λ i. ground (
  arith,
  get_elem?-drop n xs i,
  get_elem?-drop (min n k) xs i,
  get_elem?_beyond xs (n + i),
  get_elem?_beyond xs (min n k + i),
))

module _ {r : Ring} (v : IsValid r) where
  read_advanced-IsValid : (step : ℕ) → step ≤ r.readable → IsValid (read_advanced r step)
  read_advanced-IsValid step h = record {
    storage = v.storage;
    some_room = v.some_room;
    small = v.small;
    read_in = ground arith;
    fits = omega arith;
    write_is = ground arith;
  }

  read_advanced-contents :
      (step : ℕ) → step ≤ r.readable → contents (read_advanced r step) ≡ drop step (contents r)
  read_advanced-contents step h = cells_ext _ _ (λ i. ground (
    arith,
    contents_cell (read_advanced-IsValid step h) i,
    get_elem?-drop step (contents r) i,
    contents_cell v (step + i),
  ))

  -- The bytes that `write` takes, and the ring that it leaves.
  abbrev taken : List ℕ → List ℕ
  taken target = take (min (length target) (writable_len r)) target

  abbrev written : List ℕ → Ring
  written target =
      write_advanced (record r { buf = write_pieces r r.write_at (taken target) })
        (min (length target) (writable_len r))

  length-taken : (target : List ℕ) → length (taken target) ≡ min (length target) (writable_len r)
  length-taken target = omega (arith, length-take (min (length target) (writable_len r)) target)

  written-IsValid : (target : List ℕ) → IsValid (written target)
  written-IsValid target = record {
    storage =
        length-write_pieces v r.write_at (taken target) (ground arith)
          (omega (arith, length-taken target));
    some_room = v.some_room;
    small = v.small;
    read_in = v.read_in;
    fits = omega arith;
    write_is = ground arith;
  }

  written_cell :
      (target : List ℕ) (i k : ℕ)
      → i < r.size
      → k < r.size
      → wrap r r.write_at k ≡ wrap r r.read_at i
      → get_elem? (write_pieces r r.write_at (taken target)) (wrap r r.read_at i) ≡ (
          if ltb k (min (length target) (writable_len r))
          then get_elem? target k
          else get_elem? r.buf (wrap r r.read_at i))
  written_cell target i k hi hk e = ground (
    arith,
    write_pieces_cell v r.write_at (taken target) (wrap r r.read_at i) k,
    length-taken target,
    get_elem?-take (min (length target) (writable_len r)) target k,
  )

  written_old :
      (target : List ℕ) (i : ℕ)
      → i < r.readable
      → get_elem? (write_pieces r r.write_at (taken target)) (wrap r r.read_at i)
        ≡ get_elem? r.buf (wrap r r.read_at i)
  written_old target i h = ground (arith, written_cell target i (i + r.size - r.readable))

  written_new :
      (target : List ℕ) (i : ℕ)
      → r.readable ≤ i
      → i < r.readable + min (length target) (writable_len r)
      → get_elem? (write_pieces r r.write_at (taken target)) (wrap r r.read_at i)
        ≡ get_elem? target (i - r.readable)
  written_new target i h h' = ground (arith, written_cell target i (i - r.readable))

  appended_cell :
      (target : List ℕ) (i : ℕ)
      → get_elem? (contents r ++ take (writable_len r) target) i ≡ (
          if ltb i r.readable
          then get_elem? r.buf (wrap r r.read_at i)
          else (if ltb i (r.readable + min (length target) (writable_len r))
              then get_elem? target (i - r.readable)
              else none))
  appended_cell target i = ground (
    arith,
    get_elem?-append (contents r) (take (writable_len r) target) i,
    length-contents v,
    contents_cell v i,
    get_elem?-take (writable_len r) target (i - r.readable),
    get_elem?_beyond target (i - r.readable),
  )

  written-contents :
      (target : List ℕ) → contents (written target) ≡ contents r ++ take (writable_len r) target
  written-contents target =
      cells_ext _ _
        (λ i. contents_cell (written-IsValid target) i ∙ kept i ∙ sym (appended_cell target i))
    where
      kept :
          (i : ℕ)
          → (if ltb i (r.readable + min (length target) (writable_len r))
              then get_elem? (write_pieces r r.write_at (taken target)) (wrap r r.read_at i)
              else none)
            ≡ (if ltb i r.readable
                then get_elem? r.buf (wrap r r.read_at i)
                else (if ltb i (r.readable + min (length target) (writable_len r))
                    then get_elem? target (i - r.readable)
                    else none))
      kept i = elim (Bool-cases (ltb i r.readable)) [
        | inl old ↦ rw (
          written_old target i (ltb→lt _ _ old),
          old,
          lt→ltb i (r.readable + min (length target) (writable_len r)) (omega tests),
        )
        | inr new ↦
            rw new (elim (Bool-cases (ltb i (r.readable + min (length target) (writable_len r)))) [
              | inr out ↦ rw out
              | inl in_ ↦ rw (in_, written_new target i (ground arith) (ltb→lt _ _ in_))
            ])
      ]

  -- `read` returns as many bytes as were asked for and are there, the oldest first, and leaves the
  -- rest; it fails no assertion and keeps the invariant.
  pub read-contents :
      (n : ℕ)
      → (r' : Ring) × (read r n ≡ some (min n r.readable, take n (contents r), r'))
        × (contents r' ≡ drop n (contents r))
        × IsValid r'
  unfolding read read_advance
  read-contents n =
      let m = min n r.readable in
      let e : (if ltb r.readable n then r.readable else n) ≡ m = ground arith in
      let bytes : read_pieces r r.read_at m ≡ take n (contents r) = cells_ext _ _ (λ i. ground (
        arith,
        read_pieces_cell v r.read_at m i,
        get_elem?-take n (contents r) i,
        contents_cell v i,
      )) in
      let runs : leb m r.readable ≡ true = ground arith in
      (
        read_advanced r m,
        rw (e, runs, bytes),
        read_advanced-contents m (omega arith) ∙ drop-min n (contents r) (length-contents v),
        read_advanced-IsValid m (omega arith),
      )

  -- `write` takes as many bytes as there is room for, behind those that are there; it fails no
  -- assertion and keeps the invariant.
  pub write-contents :
      (target : List ℕ)
      → (r' : Ring) × (write r target ≡ some (min (length target) (writable_len r), r'))
        × (contents r' ≡ contents r ++ take (writable_len r) target)
        × IsValid r'
  unfolding write write_advance
  write-contents target =
      let m = min (length target) (writable_len r) in
      let e : (if ltb (writable_len r) (length target) then writable_len r else length target) ≡ m =
        ground arith in
      let runs : leb m (writable_len r) ≡ true = ground arith in
      (written target, rw (e, runs), written-contents target, written-IsValid target)

  -- What was read can be put back, and what was written can be taken back.
  pub advance-back :
      (step : ℕ)
      → (step ≤ r.readable → (read_advance r step >>= λ r'. read_back r' step) ≡ some r)
        × (step ≤ writable_len r → (write_advance r step >>= λ r'. write_back r' step) ≡ some r)
  unfolding read_advance read_back write_advance write_back
  advance-back step = (λ h. ground arith, λ h. ground arith)
