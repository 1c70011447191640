-- ===== src/Ring/Room.antt =====
-- Which places of the buffer the pieces of `write_array` cover (Ring/Arrays).
use tiny_backend.Prelude.{
  ℕ, zero, suc, ◌&&◌, not, ◌+◌, ◌-◌, ◌≤◌, ◌<◌, ◌^◌, ◌≡◌, refl, ◌∙◌, sym, ap, false, none, some,
  List, [], ◌∷◌, ◌++◌, map, length, get_elem?, drop, ltb, leb, ◌==◌, if◌then◌else◌, arith, min,
  Bool-cases, inl, inr, ltb→lt,
}
use tiny_backend.Ring.{Ring, add32, sub32, writable_len, continuously_writable}
use tiny_backend.Ring.Cells.{get_elem?-drop, get_elem?-append, cells_ext}
use tiny_backend.Ring.Inv.{IsValid, wrap}
use tiny_backend.Ring.Scatter.{drop-append}
use tiny_backend.Ring.Arrays.{Piece, skip, two_pieces, write_array}

-- The places from `at` on.
abbrev pub range : (at n : ℕ) → List ℕ
range at zero = []
range at (suc n) = at ∷ range (suc at) n

-- The places that pieces cover, in their order.
abbrev pub places : List Piece → List ℕ
places [] = []
places ((at, len) ∷ pieces) = range at len ++ places pieces

length-range : (at n : ℕ) → length (range at n) ≡ n
length-range at zero = refl
length-range at (suc n) = ap suc (length-range (suc at) n)

get_elem?-range :
    (at n i : ℕ) → get_elem? (range at n) i ≡ (if ltb i n then some (at + i) else none)
get_elem?-range at zero i = ground arith
get_elem?-range at (suc n) zero = ground arith
get_elem?-range at (suc n) (suc i) = ground (arith, get_elem?-range (suc at) n i)

get_elem?-map-range :
    (f : ℕ → ℕ) (at n i : ℕ)
    → get_elem? (map f (range at n)) i ≡ (if ltb i n then some (f (at + i)) else none)
get_elem?-map-range f at zero i = ground arith
get_elem?-map-range f at (suc n) zero = ground arith
get_elem?-map-range f at (suc n) (suc i) = ground (arith, get_elem?-map-range f (suc at) n i)

length-map-range : (f : ℕ → ℕ) (at n : ℕ) → length (map f (range at n)) ≡ n
length-map-range f at zero = refl
length-map-range f at (suc n) = ap suc (length-map-range f (suc at) n)

drop-range : (at n k : ℕ) → drop k (range at n) ≡ range (at + k) (n - k)
drop-range at n k = cells_ext _ _ (λ i. ground (
  arith,
  get_elem?-drop k (range at n) i,
  get_elem?-range at n (k + i),
  get_elem?-range (at + k) (n - k) i,
))

-- To skip bytes of the pieces is to drop their places.
places-skip : (pieces : List Piece) (k : ℕ) → places (skip pieces k) ≡ drop k (places pieces)
unfolding skip
places-skip [] zero = refl
places-skip [] (suc k) = refl
places-skip ((at, len) ∷ pieces) k =
    let whole = drop-append (range at len) (places pieces) k in
    let n = length-range at len in
    elim (Bool-cases (k == 0)) [
      | inl none_skipped ↦ let z : k ≡ 0 = ground arith in rw z
      | inr more ↦ rw more (elim (Bool-cases (ltb len k)) [
        | inl all ↦
            let past : len - k ≡ 0 = ground arith in
            rw (all, whole, drop-range at len k, n, past) (places-skip pieces (k - len))
        | inr part ↦
            let inside : k - len ≡ 0 = ground arith in
            rw (part, whole, drop-range at len k, n, inside)
      ])
    ]

before_place :
    (read write total room size offset i : ℕ)
    → read < total
    → write < read
    → read - write ≡ room
    → offset < room
    → i < size
    → (if ltb (offset + i) (read - write)
        then write + (offset + i)
        else offset + i - (read - write))
      ≡ (if ltb i (min size (room - offset))
          then (if ltb (write + (offset + i)) total
              then write + (offset + i)
              else write + (offset + i) - total)
          else 0 + (i - min size (room - offset)))
before_place read write total room size offset i a b c d e = ground arith

behind_place :
    (read write total room size offset i : ℕ)
    → write < total
    → write + room ≡ read + total
    → offset < room
    → i < size
    → (if ltb (offset + i) (total - write)
        then write + (offset + i)
        else offset + i - (total - write))
      ≡ (if ltb i (min size (room - offset))
          then (if ltb (write + (offset + i)) total
              then write + (offset + i)
              else write + (offset + i) - total)
          else read + (i - min size (room - offset)))
behind_place read write total room size offset i w a b c = ground arith

module _ {r : Ring} (v : IsValid r) where
  -- Where the room ends: the pieces run on at the byte that is read next or, if the room does not go
  -- up to the end of the buffer, at its start.
  abbrev pub run_on : ℕ
  run_on = if ltb r.write_at r.read_at then 0 else r.read_at

  covered_cell :
      (c size offset i : ℕ)
      → get_elem? (drop offset (places (two_pieces r.write_at c (size + offset)))) i ≡ (
          if ltb i size
          then some (if ltb (offset + i) c then r.write_at + (offset + i) else offset + i - c)
          else none)
  covered_cell c size offset i =
      let first : ℕ = if ltb (size + offset) c then size + offset else c in
      let rest = range 0 (size + offset - first) ++ [] in
      ground (
        arith,
        get_elem?-drop offset (range r.write_at first ++ rest) i,
        get_elem?-append (range r.write_at first) rest (offset + i),
        get_elem?-append (range 0 (size + offset - first)) [] (offset + i - first),
        length-range r.write_at first,
        length-range 0 (size + offset - first),
        get_elem?-range r.write_at first (offset + i),
        get_elem?-range 0 (size + offset - first) (offset + i - first),
      )

  room_cell :
      (size k offset i : ℕ)
      → k ≤ size
      → get_elem? (map (wrap r r.write_at) (range offset k) ++ range run_on (size - k)) i ≡ (
          if ltb i size
          then some (if ltb i k then wrap r r.write_at (offset + i) else run_on + (i - k))
          else none)
  room_cell size k offset i h = ground (
    arith,
    get_elem?-append (map (wrap r r.write_at) (range offset k)) (range run_on (size - k)) i,
    length-map-range (wrap r r.write_at) offset k,
    get_elem?-map-range (wrap r r.write_at) offset k i,
    get_elem?-range run_on (size - k) (i - k),
  )

  -- The room is before the bytes that are there, or it reaches the end of the buffer.
  room_before : r.write_at < r.read_at → r.read_at - r.write_at ≡ writable_len r
  room_before h = ground (arith, v.write_is, v.fits, v.read_in)

  room_behind :
      {offset : ℕ}
      → r.read_at ≤ r.write_at
      → offset < writable_len r
      → (r.write_at < r.size)
        × (r.write_at + writable_len r ≡ r.read_at + r.size)
        × ((if r.read_at == r.write_at && not (r.readable == 0) then 0 else r.size - r.write_at)
            ≡ r.size - r.write_at)
  room_behind h h' =
      let at : r.write_at ≡ r.read_at + r.readable =
        ground (arith, v.write_is, v.fits, v.read_in) in
      let below : r.write_at < r.size = ground (arith, v.write_is, v.fits, v.read_in) in
      let not_full : (r.read_at == r.write_at && not (r.readable == 0)) ≡ false =
        ground (arith, at) in
      (below, omega (arith, at, v.fits), rw not_full refl)

  -- The two pieces run through the room, and on.
  same_place :
      (size offset i : ℕ)
      → offset < writable_len r
      → i < size
      → let c = continuously_writable r in
        let k = min size (writable_len r - offset) in
        (if ltb (offset + i) c then r.write_at + (offset + i) else offset + i - c)
        ≡ (if ltb i k then wrap r r.write_at (offset + i) else run_on + (i - k))
  same_place size offset i h hi = elim (Bool-cases (ltb r.write_at r.read_at)) [
    | inl l ↦
        let gap = room_before (ltb→lt _ _ l) in
        rw l (
          before_place r.read_at r.write_at r.size (writable_len r) size offset i v.read_in
            (ltb→lt _ _ l) gap h hi)
    | inr l ↦
        let (below, end, to) = room_behind (ground arith) h in
        rw (l, to)
          (behind_place r.read_at r.write_at r.size (writable_len r) size offset i below end h hi)
  ]

  meet :
      (size offset i : ℕ)
      → offset < writable_len r
      → let c = continuously_writable r in
        let k = min size (writable_len r - offset) in
        (if ltb i size
          then some (if ltb (offset + i) c then r.write_at + (offset + i) else offset + i - c)
          else none)
        ≡ (if ltb i size
            then some (if ltb i k then wrap r r.write_at (offset + i) else run_on + (i - k))
            else none)
  meet size offset i h = elim (Bool-cases (ltb i size)) [
    | inl l ↦ rw l (ap some (same_place size offset i h (ltb→lt i size l)))
    | inr l ↦ rw l refl
  ]

  -- The pieces of `write_array` cover the room from the offset on, in its order: as many bytes as were
  -- asked for, and none if the offset is not in the room. A size above the room is cut to what is
  -- behind the offset, but a smaller one is not: with an offset that leaves less room the pieces run
  -- on, at the byte that is read next or, if the room does not go up to the end of the buffer, at the
  -- start of the buffer. This is so if the sum of the offset and the size is a uint32.
  pub write_array-places :
      (n offset : ℕ)
      → offset + n < 2 ^ 32
      → let size = if ltb (writable_len r) n then writable_len r - offset else n in
        let inside = min size (writable_len r - offset) in
        places (write_array r n offset) ≡ (
          if leb (writable_len r) offset
          then []
          else map (wrap r r.write_at) (range offset inside) ++ range run_on (size - inside))
  unfolding write_array
  write_array-places n offset h = elim (Bool-cases (leb (writable_len r) offset)) [
    | inl past ↦ rw past refl
    | inr inside ↦
        let size : ℕ = if ltb (writable_len r) n then writable_len r - offset else n in
        let e : (if ltb (writable_len r) n then sub32 (writable_len r) offset else n) ≡ size =
          ground arith in
        let w : add32 size offset ≡ size + offset = ground arith in
        let c = continuously_writable r in
        let k : ℕ = min size (writable_len r - offset) in
        rw (inside, e, w, places-skip (two_pieces r.write_at c (size + offset)) offset)
          (cells_ext _ _ (λ i.
            covered_cell c size offset i
            ∙ meet size offset i (ground arith)
            ∙ sym (room_cell size k offset i (omega arith))))
  ]
