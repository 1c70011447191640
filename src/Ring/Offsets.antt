-- ===== src/Ring/Offsets.antt =====
-- Base/Buffer/RingBufferWrapper.hpp and src/RingBufferWrapper.cpp: the forms over arrays that keep
-- to an offset or move all or nothing, the transfers between two buffers, and RingBuffer of
-- Base/Buffer/RingBuffer.hpp, which allocates its own bytes.
use tiny_backend.Prelude.Partial.{◌>>=◌}
use tiny_backend.Prelude.{
  ℕ, ◌+◌, ◌%◌, ◌^◌, false, Option, some, List, [], ◌∷◌, ◌++◌, map, length, take, drop, replicate,
  ltb, leb, ◌==◌, if◌then◌else◌,
}
use tiny_backend.Ring.{
  Ring, init, add32, slice, memcpy, writable_len, try_read, try_write, change_written, read_advance,
  write_advance,
}
use tiny_backend.Ring.Arrays.{Piece, read_array, write_array, read_vector, write_vector, resize}

-- `try_read(N, array, offset)`: how many bytes were read, and the bytes.
unfoldable pub try_read_vector : Ring → List ℕ → (offset read_size : ℕ) → ℕ × List ℕ
try_read_vector r [] offset read_size = (read_size, [])
try_read_vector r (n ∷ sizes) offset read_size =
    let at = add32 offset read_size in
    let (m, bytes) = try_read r (n % 2 ^ 32) at in
    let skipped = try_read_vector r sizes offset read_size in
    let (total, rest) = try_read_vector r sizes offset (add32 read_size m) in
    if n == 0
    then skipped
    else (if leb r.readable at then (read_size, []) else (total, bytes ++ rest))

-- `try_write(N, array, offset)`.
unfoldable pub try_write_vector : Ring → List (List ℕ) → (offset written : ℕ) → ℕ × Ring
try_write_vector r [] offset written = (written, r)
try_write_vector r (target ∷ array) offset written =
    let at = add32 offset written in
    let (m, r') = try_write r (take (length target % 2 ^ 32) target) at in
    let skipped = try_write_vector r array offset written in
    let more = try_write_vector r' array offset (add32 written m) in
    if length target == 0 then skipped else (if leb (writable_len r) at then (written, r) else more)

-- `change_written(offset, N, array)`.
unfoldable pub change_written_vector :
    Ring → (offset : ℕ) → List (List ℕ) → (written : ℕ) → ℕ × Ring
change_written_vector r offset [] written = (written, r)
change_written_vector r offset (target ∷ array) written =
    let at = add32 offset written in
    let (m, r') = change_written r at (take (length target % 2 ^ 32) target) in
    let skipped = change_written_vector r offset array written in
    let more = change_written_vector r' offset array (add32 written m) in
    if length target == 0 then skipped else (if leb r.readable at then (written, r) else more)

-- The loop over `iov_len`, in uint64.
unfoldable pub sum64 : List ℕ → ℕ → ℕ
sum64 [] size = size
sum64 (n ∷ sizes) size = sum64 sizes ((size + n) % 2 ^ 64)

unfoldable pub fix_read_vector : Ring → List ℕ → Option (ℕ × List ℕ × Ring)
fix_read_vector r sizes =
    if ltb r.readable (sum64 sizes 0) then some (0, [], r) else read_vector r sizes 0

unfoldable pub fix_write_vector : Ring → List (List ℕ) → Option (ℕ × Ring)
fix_write_vector r array =
    if ltb (writable_len r) (sum64 (map length array) 0)
    then some (0, r)
    else write_vector r array 0

-- `read(buffer, size)` into another ring: how much was moved, and both rings.
unfoldable pub read_into : Ring → Ring → ℕ → Option (ℕ × Ring × Ring)
read_into r buffer wanted = do
  let size = if ltb r.readable wanted then r.readable else wanted
  let pieces = map (λ (at, len). slice r.buf at len) (read_array r size 0)
  (moved, buffer') ← write_vector buffer pieces 0
  r' ← read_advance r moved
  some (moved, r', buffer')

-- What a scatter read makes of the bytes that the pieces name.
unfoldable pub scatter : List ℕ → List Piece → List ℕ → List ℕ
scatter buf [] bytes = buf
scatter buf ((at, len) ∷ pieces) bytes =
    scatter (memcpy buf at (take len bytes)) pieces (drop len bytes)

-- `write(buffer, size)` from another ring.
unfoldable pub write_from : Ring → Ring → ℕ → Option (ℕ × Ring × Ring)
write_from r buffer wanted = do
  let size = if ltb (writable_len r) wanted then writable_len r else wanted
  let pieces = write_array r size 0
  (moved, bytes, buffer') ← read_vector buffer (map (λ (at, len). len) pieces) 0
  r' ← write_advance (record r { buf = scatter r.buf pieces bytes }) moved
  some (moved, r', buffer')

-- RingBuffer: `new char[size]` gives a region apart from all others, filled with zeros here.
unfoldable pub ring_buffer : ℕ → Ring
ring_buffer size = init (replicate size 0) size

unfoldable pub resize_buffer : Ring → ℕ → Option Ring
resize_buffer r size = resize r (replicate size 0) size false
