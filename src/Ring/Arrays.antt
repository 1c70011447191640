-- ===== src/Ring/Arrays.antt =====
-- The scatter and gather calls of Base/Buffer/RingBufferWrapper.hpp and src/RingBufferWrapper.cpp, over
-- the iovec arrays of Base/Detail/BufferArray.hpp, and the calls that move the bytes of a ring.
use tiny_backend.Prelude.Partial.{◌>>=◌, ◌>>◌, assert}
use tiny_backend.Prelude.{
  ℕ, ◌+◌, ◌-◌, ◌%◌, ◌^◌, Bool, ◌&&◌, Option, none, some, List, [], ◌∷◌, ◌++◌, length, take, ltb,
  leb, ◌==◌, if◌then◌else◌,
}
use tiny_backend.Ring.{
  Ring, add32, sub32, slice, memcpy, writable_len, continuously_readable, continuously_writable,
  read, write, write_advance,
}

-- An iovec into the buffer of a ring: an offset and a length.
abbrev pub Piece : Type 0
Piece = ℕ × ℕ

-- `operator+=`, and `operator+`, on an array: the first `step` bytes are passed over.
unfoldable pub skip : List Piece → ℕ → List Piece
skip [] step = []
skip ((at, len) ∷ pieces) step =
    let rest = skip pieces (step - len) in
    if step == 0
    then (at, len) ∷ pieces
    else (if ltb len step then (at + len, 0) ∷ rest else (at + step, len - step) ∷ pieces)

-- `size_of`.
abbrev pub size_of : List Piece → ℕ
size_of [] = 0
size_of ((at, len) ∷ pieces) = len + size_of pieces

-- The bytes that the pieces cover.
abbrev pub gather : List ℕ → List Piece → List ℕ
gather buf [] = []
gather buf ((at, len) ∷ pieces) = slice buf at len ++ gather buf pieces

abbrev pub two_pieces : ℕ → ℕ → ℕ → List Piece
two_pieces at continuous size =
    let first = if ltb size continuous then size else continuous in
    (at, first) ∷ (0, size - first) ∷ []

unfoldable pub read_array : Ring → ℕ → ℕ → List Piece
read_array r wanted offset =
    let size = if ltb r.readable (add32 offset wanted) then r.readable - offset else wanted in
    if leb r.readable offset
    then (r.read_at, 0) ∷ (0, 0) ∷ []
    else skip (two_pieces r.read_at (continuously_readable r) (add32 size offset)) offset

-- The limit tests the size alone, without the offset.
unfoldable pub write_array : Ring → ℕ → ℕ → List Piece
write_array r wanted offset =
    let size = if ltb (writable_len r) wanted then sub32 (writable_len r) offset else wanted in
    if leb (writable_len r) offset
    then (r.read_at, 0) ∷ (0, 0) ∷ []
    else skip (two_pieces r.write_at (continuously_writable r) (add32 size offset)) offset

unfoldable pub readable_array : Ring → Option (List Piece)
readable_array r = do
  let continuous = continuously_readable r
  assert (leb continuous r.readable)
  some ((r.read_at, continuous) ∷ (0, r.readable - continuous) ∷ [])

unfoldable pub writable_array : Ring → Option (List Piece)
writable_array r = do
  let continuous = continuously_writable r
  assert (leb continuous (writable_len r))
  some ((r.write_at, continuous) ∷ (0, writable_len r - continuous) ∷ [])

-- `read(N, array)`: the sizes of the array in, the bytes out, one array behind the other. A size is
-- cut to a uint32.
unfoldable pub read_vector : Ring → List ℕ → ℕ → Option (ℕ × List ℕ × Ring)
read_vector r [] read_len = some (read_len, [], r)
read_vector r (n ∷ sizes) read_len =
    let skipped = read_vector r sizes read_len in
    let taken = (do
      (m, bytes, r') ← read r (n % 2 ^ 32)
      (total, rest, r'') ← read_vector r' sizes (add32 read_len m)
      some (total, bytes ++ rest, r'')) in
    if n == 0 then skipped else (if r.readable == 0 then some (read_len, [], r) else taken)

-- `write(N, array)`.
unfoldable pub write_vector : Ring → List (List ℕ) → ℕ → Option (ℕ × Ring)
write_vector r [] written = some (written, r)
write_vector r (target ∷ array) written =
    let skipped = write_vector r array written in
    let put = (do
      (m, r') ← write r (take (length target % 2 ^ 32) target)
      write_vector r' array (add32 written m)) in
    if length target == 0 then skipped else (if writable_len r == 0 then some (written, r) else put)

-- `memcpy` within the buffer: undefined if the two ranges overlap.
unfoldable pub memcpy_within : List ℕ → ℕ → ℕ → ℕ → Option (List ℕ)
memcpy_within buf dest src n =
    if ltb src (dest + n) && ltb dest (src + n)
    then none
    else some (memcpy buf dest (slice buf src n))

-- The bytes of the buffer after `reposition`, for a ring that does not begin at its start.
unfoldable pub repositioned : Ring → Option (List ℕ)
repositioned r =
    let len = r.size - r.read_at in
    let another = r.readable - len in
    if leb (r.read_at + r.readable) r.size
    then some (memcpy r.buf 0 (slice r.buf r.read_at r.readable))
    else (if ltb len another
        then (do
          moved ← memcpy_within r.buf len 0 another
          some (memcpy moved 0 (slice r.buf r.read_at len)))
        else (do
          moved ← memcpy_within r.buf 0 r.read_at len
          some (memcpy moved len (slice r.buf 0 another))))

unfoldable pub reposition : Ring → Option Ring
reposition r =
    let moved = (do
      buf ← repositioned r
      some (record r { buf = buf; read_at = 0; write_at = r.readable })) in
    if r.read_at == 0 then some r else moved

-- `resize` to a region that holds the bytes `region`; `overlaps` is its test on the addresses.
unfoldable pub resize : Ring → List ℕ → ℕ → Bool → Option Ring
resize r region size overlaps = do
  assert (leb r.readable size)
  let shifted = reposition r >>= λ r'. some (slice r'.buf 0 r.readable)
  let copied = read r r.readable >>= λ (_, bytes, _). some bytes
  bytes ← if overlaps then shifted else copied
  write_advance
      (record { buf = memcpy region 0 bytes; read_at = 0; write_at = 0; readable = 0; size = size })
      r.readable
