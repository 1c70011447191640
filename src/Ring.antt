-- ===== src/Ring.antt =====
-- Base/Buffer/RingBufferWrapper.hpp and src/RingBufferWrapper.cpp: a byte ring over a caller's
-- buffer. The pointers `_read` and `_write` are offsets from `_buffer`; what `memcpy` moves out is
-- returned as a list of bytes, and what it moves in is passed as one. `none` is a failed `assert`.
pub mod Cells
pub mod Inv
pub mod Queue
pub mod Peek
pub mod Arrays
pub mod Scatter
pub mod Room
pub mod Reposition
pub mod Vectors
pub mod Offsets
pub mod Skipped
mod Tests
use tiny_backend.Prelude.Partial.{◌>>=◌, ◌>>◌, assert}
use tiny_backend.Prelude.{
  ℕ, ◌+◌, ◌-◌, ◌%◌, ◌^◌, ◌<◌, Bool, ◌&&◌, not, Option, none, some, List, [], ◌∷◌, ◌++◌, length,
  take, drop, ltb, leb, ◌==◌, if◌then◌else◌,
}

pub record Ring : Type 0 where
  pub buf : List ℕ
  pub read_at : ℕ
  pub write_at : ℕ
  pub readable : ℕ
  pub size : ℕ

-- The constructor over `size` bytes.
abbrev pub init : List ℕ → ℕ → Ring
init buf size = record { buf = buf; read_at = 0; write_at = 0; readable = 0; size = size }

-- uint32 addition.
abbrev pub add32 : ℕ → ℕ → ℕ
add32 a b = (a + b) % 2 ^ 32

-- The difference of two uint32, which wraps around below 0.
abbrev pub sub32 : ℕ → ℕ → ℕ
sub32 a b = (a + (2 ^ 32 - b)) % 2 ^ 32

-- The bytes that `memcpy` reads, and what it makes of the bytes that it writes to.
abbrev pub slice : List ℕ → ℕ → ℕ → List ℕ
slice buf at n = take n (drop at buf)

abbrev pub memcpy : List ℕ → ℕ → List ℕ → List ℕ
memcpy dest at bytes = take at dest ++ (bytes ++ drop (at + length bytes) dest)

abbrev pub empty : Ring → Bool
empty r = r.read_at == r.write_at && r.readable == 0

-- The sizes: `_readable` is never above `_size`, so the difference does not wrap.
abbrev pub writable_len : Ring → ℕ
writable_len r = r.size - r.readable

abbrev pub continuously_readable : Ring → ℕ
continuously_readable r =
    let distance = r.size - r.read_at in if leb r.readable distance then r.readable else distance

abbrev pub continuously_writable : Ring → ℕ
continuously_writable r =
    if ltb r.write_at r.read_at
    then r.read_at - r.write_at
    else (if r.read_at == r.write_at && not (r.readable == 0) then 0 else r.size - r.write_at)

-- A pointer stepped forward or back, round the end of the buffer.
abbrev pub forward : Ring → ℕ → ℕ → ℕ
forward r at step = if leb r.size (at + step) then at + step - r.size else at + step

abbrev pub backward : Ring → ℕ → ℕ → ℕ
backward r at step = if ltb at step then at + r.size - step else at - step

unfoldable pub read_advance : Ring → ℕ → Option Ring
read_advance r step = do
  assert (leb step r.readable)
  some (record r { read_at = forward r r.read_at step; readable = r.readable - step })

unfoldable pub read_back : Ring → ℕ → Option Ring
read_back r step = do
  assert (leb step (writable_len r))
  some (record r { read_at = backward r r.read_at step; readable = r.readable + step })

unfoldable pub write_advance : Ring → ℕ → Option Ring
write_advance r step = do
  assert (leb step (writable_len r))
  some (record r { write_at = forward r r.write_at step; readable = r.readable + step })

unfoldable pub write_back : Ring → ℕ → Option Ring
write_back r step = do
  assert (leb step r.readable)
  some (record r { write_at = backward r r.write_at step; readable = r.readable - step })

-- `clear_input` and `clear_output`, which are the same.
unfoldable pub clear_input : Ring → Option Ring
clear_input r = read_advance r r.readable

-- The `size` bytes from an offset on, in one or in two pieces.
abbrev pub read_pieces : Ring → ℕ → ℕ → List ℕ
read_pieces r at size =
    let len = r.size - at in
    if leb size len then slice r.buf at size else slice r.buf at len ++ slice r.buf 0 (size - len)

-- `target` has `size` bytes, and is split where the buffer ends.
abbrev pub write_pieces : Ring → ℕ → List ℕ → List ℕ
write_pieces r at target =
    let len = r.size - at in
    if leb (at + length target) r.size
    then memcpy r.buf at target
    else memcpy (memcpy r.buf at (take len target)) 0 (drop len target)

-- `read(dest, size)`: the result, the bytes of `dest` and the ring.
unfoldable pub read : Ring → ℕ → Option (ℕ × List ℕ × Ring)
read r wanted = do
  let size = if ltb r.readable wanted then r.readable else wanted
  r' ← read_advance r size
  some (size, read_pieces r r.read_at size, r')

unfoldable pub try_read : Ring → ℕ → ℕ → ℕ × List ℕ
try_read r wanted offset =
    let size = if ltb r.readable (add32 offset wanted) then r.readable - offset else wanted in
    let record_at = forward r r.read_at offset in
    if leb r.readable offset then (0, []) else (size, read_pieces r record_at size)

-- `write(target, size)`; the size is the length of the list.
unfoldable pub write : Ring → List ℕ → Option (ℕ × Ring)
write r target = do
  let size = if ltb (writable_len r) (length target) then writable_len r else length target
  r' ← write_advance (record r { buf = write_pieces r r.write_at (take size target) }) size
  some (size, r')

-- In its second case `len` is what is left up to the end of the buffer, or all.
unfoldable pub try_write : Ring → List ℕ → ℕ → ℕ × Ring
try_write r target offset =
    let size =
      if ltb (writable_len r) (add32 offset (length target))
      then writable_len r - offset
      else length target in
    let first = continuously_writable r in
    let rest = r.size - r.write_at - offset in
    let len = if ltb size rest then size else rest in
    let buf =
      if leb first offset
      then memcpy r.buf (offset - first) (take size target)
      else memcpy (memcpy r.buf (r.write_at + offset) (take len target)) 0
          (drop len (take size target)) in
    if leb (writable_len r) offset then (0, r) else (size, record r { buf = buf })

unfoldable pub change_written : Ring → ℕ → List ℕ → ℕ × Ring
change_written r offset bytes =
    let size =
      if ltb r.readable (add32 offset (length bytes))
      then sub32 r.readable offset
      else length bytes in
    let record_at = forward r r.read_at offset in
    if ltb r.readable offset
    then (0, r)
    else (size, record r { buf = write_pieces r record_at (take size bytes) })

-- `fix_read` and `fix_write` move all of the bytes or none.
unfoldable pub fix_read : Ring → ℕ → Option (ℕ × List ℕ × Ring)
fix_read r size = if ltb r.readable size then some (0, [], r) else read r size

unfoldable pub fix_write : Ring → List ℕ → Option (ℕ × Ring)
fix_write r target = if ltb (writable_len r) (length target) then some (0, r) else write r target
