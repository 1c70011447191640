-- ===== src/Ring/Inv.antt =====
-- The invariant of a ring of Base/Buffer/src/RingBufferWrapper.cpp, the bytes that it holds, and
-- what the pieces that it reads and writes are.
use tiny_backend.Prelude.{
  ℕ, ◌+◌, ◌-◌, ◌≤◌, ◌<◌, ◌^◌, ◌≡◌, none, List, ◌++◌, length, get_elem?, take, drop, ltb,
  if◌then◌else◌, arith, length-append, length-take, length-drop,
}
use tiny_backend.Ring.{Ring, forward, slice, memcpy, read_pieces, write_pieces}
use tiny_backend.Ring.Cells.{
  get_elem?-take, get_elem?-drop, get_elem?-append, length-memcpy, get_elem?-memcpy,
}

pub record IsValid (r : Ring) : Type 0 where
  pub storage : length r.buf ≡ r.size
  pub some_room : 0 < r.size
  pub small : r.size < 2 ^ 32
  pub read_in : r.read_at < r.size
  pub fits : r.readable ≤ r.size
  pub write_is : r.write_at ≡ forward r r.read_at r.readable

-- The bytes of a ring, the oldest first.
abbrev pub contents : Ring → List ℕ
contents r = take r.readable (drop r.read_at r.buf ++ r.buf)

-- Where the `i`-th byte from `at` on stands.
abbrev pub wrap : Ring → ℕ → ℕ → ℕ
wrap r at i = if ltb (at + i) r.size then at + i else at + i - r.size

module _ {r : Ring} (v : IsValid r) where
  pub contents_cell :
      (i : ℕ)
      → get_elem? (contents r) i
        ≡ (if ltb i r.readable then get_elem? r.buf (wrap r r.read_at i) else none)
  contents_cell i = ground (
    arith,
    get_elem?-take r.readable (drop r.read_at r.buf ++ r.buf) i,
    get_elem?-append (drop r.read_at r.buf) r.buf i,
    get_elem?-drop r.read_at r.buf i,
    length-drop r.read_at r.buf,
  )

  pub length-contents : length (contents r) ≡ r.readable
  length-contents = omega (
    arith,
    length-take r.readable (drop r.read_at r.buf ++ r.buf),
    length-append (drop r.read_at r.buf) r.buf,
    length-drop r.read_at r.buf,
  )

  pub read_pieces_cell :
      (at n i : ℕ)
      → at < r.size
      → n ≤ r.size
      → get_elem? (read_pieces r at n) i ≡ (if ltb i n then get_elem? r.buf (wrap r at i) else none)
  read_pieces_cell at n i ha hn = ground (
    arith,
    get_elem?-take n (drop at r.buf) i,
    get_elem?-drop at r.buf i,
    get_elem?-append (slice r.buf at (r.size - at)) (slice r.buf 0 (n - (r.size - at))) i,
    get_elem?-take (r.size - at) (drop at r.buf) i,
    get_elem?-take (n - (r.size - at)) r.buf (i - length (slice r.buf at (r.size - at))),
    length-take (r.size - at) (drop at r.buf),
    length-drop at r.buf,
  )

  pub length-write_pieces :
      (at : ℕ) (bytes : List ℕ)
      → at < r.size
      → length bytes ≤ r.size
      → length (write_pieces r at bytes) ≡ r.size
  length-write_pieces at bytes ha hn = ground (
    arith,
    length-memcpy r.buf at bytes,
    length-memcpy r.buf at (take (r.size - at) bytes),
    length-memcpy (memcpy r.buf at (take (r.size - at) bytes)) 0 (drop (r.size - at) bytes),
    length-take (r.size - at) bytes,
    length-drop (r.size - at) bytes,
  )

  -- The byte at `j`, which is the `k`-th from `at` on.
  pub write_pieces_cell :
      (at : ℕ) (bytes : List ℕ) (j k : ℕ)
      → at < r.size
      → length bytes ≤ r.size
      → j < r.size
      → k < r.size
      → wrap r at k ≡ j
      → get_elem? (write_pieces r at bytes) j
        ≡ (if ltb k (length bytes) then get_elem? bytes k else get_elem? r.buf j)
  write_pieces_cell at bytes j k ha hn hj hk e = ground (
    arith,
    get_elem?-memcpy r.buf at bytes j,
    get_elem?-memcpy r.buf at (take (r.size - at) bytes) j,
    get_elem?-memcpy (memcpy r.buf at (take (r.size - at) bytes)) 0 (drop (r.size - at) bytes) j,
    length-memcpy r.buf at (take (r.size - at) bytes),
    length-take (r.size - at) bytes,
    length-drop (r.size - at) bytes,
    get_elem?-take (r.size - at) bytes (j - at),
    get_elem?-drop (r.size - at) bytes j,
  )
