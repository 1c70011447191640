-- ===== src/Ring/Tests.antt =====
-- Tests of Base/Buffer/src/RingBufferWrapper.cpp, and its theorems at concrete rings.
use tiny_backend.Prelude.Partial.{◌>>=◌}
use tiny_backend.Prelude.{
  ℕ, ◌-◌, ◌≤◌, ◌<◌, ◌≡◌, refl, none, some, List, [], ◌∷◌, ◌++◌, take, drop, min, arith, false, true,
}
use tiny_backend.Ring.{
  Ring, empty, init, memcpy, read_advance, read_back, write_advance, write_back, read, write,
  try_read, try_write, change_written,
}
use tiny_backend.Ring.Inv.{IsValid, contents}
use tiny_backend.Ring.Queue.{read-contents, write-contents, advance-back}
use tiny_backend.Ring.Peek.{try_read-contents, change_written-contents}
use tiny_backend.Ring.Arrays.{
  skip, gather, read_array, write_array, read_vector, write_vector, memcpy_within, repositioned,
  reposition, resize,
}
use tiny_backend.Ring.Scatter.{read_array-contents}
use tiny_backend.Ring.Room.{places, write_array-places}
use tiny_backend.Ring.Reposition.{Defined, reposition-contents, reposition_overlap}
use tiny_backend.Ring.Offsets.{
  try_read_vector, try_write_vector, change_written_vector, sum64, fix_read_vector,
  fix_write_vector, read_into, scatter, write_from, ring_buffer, resize_buffer,
}
use tiny_backend.Ring.Skipped.{try_read_vector-contents}
use tiny_backend.Ring.Vectors.{sum, read_vector-contents}

program : Unit {0}
unfolding read_advance read_back write_advance write_back read write try_read try_write
    change_written skip read_array write_array read_vector write_vector memcpy_within repositioned
    reposition resize
program = tt

-- 8 and 9 at the end of the buffer, 7, 6 and 5 at its start.
abbrev ring : Ring
ring = record {
  buf = 7 ∷ 6 ∷ 5 ∷ 0 ∷ 8 ∷ 9 ∷ [];
  read_at = 4;
  write_at = 3;
  readable = 5;
  size = 6;
}

ring-IsValid : IsValid ring
ring-IsValid = omega arith

abbrev roomy : Ring
roomy = record ring { read_at = 4; write_at = 1; readable = 3 }

roomy-IsValid : IsValid roomy
roomy-IsValid = omega arith

runs :
    (contents ring ≡ 8 ∷ 9 ∷ 7 ∷ 6 ∷ 5 ∷ [])
    × ((write (init (0 ∷ 0 ∷ []) 2) (1 ∷ 2 ∷ 3 ∷ []) >>= λ w. some w.0) ≡ some 2)
    × ((read ring 3 >>= λ t. some t.1) ≡ some (8 ∷ 9 ∷ 7 ∷ []))
    × ((try_write roomy (1 ∷ 2 ∷ []) 1).1.buf ≡ 7 ∷ 6 ∷ 1 ∷ 2 ∷ 8 ∷ 9 ∷ [])
unfolding program
runs = (refl, refl, refl, refl)

arrays :
    (read_array ring 3 1 ≡ (5, 1) ∷ (0, 2) ∷ [])
    × ((write_vector roomy ((1 ∷ []) ∷ [] ∷ (2 ∷ 3 ∷ 4 ∷ []) ∷ []) 0 >>= λ w. some w.0) ≡ some 3)
    × ((read_vector ring (1 ∷ 0 ∷ 9 ∷ []) 0 >>= λ t. some t.0) ≡ some 5)
unfolding program
arrays = (refl, refl, refl)

moves :
    (reposition roomy
      ≡ some (record roomy { buf = 8 ∷ 9 ∷ 7 ∷ 0 ∷ 8 ∷ 9 ∷ []; read_at = 0; write_at = 3 }))
    × ((resize ring (0 ∷ 0 ∷ 0 ∷ 0 ∷ 0 ∷ []) 5 false >>= λ r. some (contents r))
        ≡ some (8 ∷ 9 ∷ 7 ∷ 6 ∷ 5 ∷ []))
unfolding program
moves = (refl, refl)

read-contents_example :
    (r' : Ring) × (read ring 3 ≡ some (min 3 5, take 3 (contents ring), r'))
    × (contents r' ≡ drop 3 (contents ring))
    × IsValid r'
read-contents_example = read-contents ring-IsValid 3

write-contents_example :
    (r' : Ring) × (write roomy (1 ∷ 2 ∷ 3 ∷ 4 ∷ []) ≡ some (min 4 3, r'))
    × (contents r' ≡ contents roomy ++ take 3 (1 ∷ 2 ∷ 3 ∷ 4 ∷ []))
    × IsValid r'
write-contents_example = write-contents roomy-IsValid (1 ∷ 2 ∷ 3 ∷ 4 ∷ [])

advance-back_example :
    (2 ≤ 3 → (read_advance roomy 2 >>= λ r'. read_back r' 2) ≡ some roomy)
    × (2 ≤ 3 → (write_advance roomy 2 >>= λ r'. write_back r' 2) ≡ some roomy)
advance-back_example = advance-back roomy-IsValid 2

try_read-contents_example : try_read ring 2 1 ≡ (min 2 (5 - 1), take 2 (drop 1 (contents ring)))
try_read-contents_example = try_read-contents ring-IsValid 2 1 (omega arith)

abbrev two : List ℕ
two = 1 ∷ 2 ∷ []

change_written-contents_example :
    let (n, r') = change_written ring 1 two in
    (n ≡ min 2 (5 - 1)) × (contents r' ≡ memcpy (contents ring) 1 (take n two)) × IsValid r'
change_written-contents_example = change_written-contents ring-IsValid 1 two (omega arith)

read_array-contents_example :
    gather ring.buf (read_array ring 3 1) ≡ take 3 (drop 1 (contents ring))
read_array-contents_example = read_array-contents ring-IsValid 3 1 (omega arith)

-- Room for 3 at 1, 2 and 3; a request for 3 behind an offset of 2.
write_array-places_example : places (write_array roomy 3 2) ≡ 3 ∷ 0 ∷ 1 ∷ []
write_array-places_example = write_array-places roomy-IsValid 3 2 (omega arith)

reposition-contents_example :
    Defined
      (λ r'.
        (contents r' ≡ contents roomy)
        × (r'.read_at ≡ 0)
        × (roomy.readable < roomy.size → IsValid r'))
      (reposition roomy)
reposition-contents_example = reposition-contents roomy-IsValid

reposition_overlap_example : reposition ring ≡ none
reposition_overlap_example = reposition_overlap ring-IsValid (omega arith) (omega arith)

abbrev sizes : List ℕ
sizes = 1 ∷ 0 ∷ 2 ∷ []

read_vector-contents_example :
    (r' : Ring) × (read_vector ring sizes 0
      ≡ some (min (sum sizes) 5, take (sum sizes) (contents ring), r'))
    × (contents r' ≡ drop (sum sizes) (contents ring))
    × IsValid r'
read_vector-contents_example = read_vector-contents sizes ring-IsValid (omega arith)

try_read_vector-contents_example : try_read_vector ring (1 ∷ 0 ∷ 9 ∷ []) 2 0 ≡ try_read ring 10 2
try_read_vector-contents_example =
    try_read_vector-contents ring-IsValid (1 ∷ 0 ∷ 9 ∷ []) 2 (omega arith)

offsets :
    (try_read_vector ring (1 ∷ 0 ∷ 9 ∷ []) 2 0 ≡ (3, 7 ∷ 6 ∷ 5 ∷ []))
    × ((change_written_vector ring 1 ((1 ∷ []) ∷ (2 ∷ 3 ∷ []) ∷ []) 0).1.buf
        ≡ 2 ∷ 3 ∷ 5 ∷ 0 ∷ 8 ∷ 1 ∷ [])
    × ((try_write_vector roomy ((1 ∷ []) ∷ (2 ∷ 3 ∷ []) ∷ []) 1 0).0 ≡ 2)
    × ((fix_read_vector ring (3 ∷ 3 ∷ []) >>= λ t. some t.0) ≡ some 0)
    × ((fix_write_vector roomy (two ∷ []) >>= λ t. some t.0) ≡ some 2)
    × ((read_into ring roomy 4 >>= λ (n, a, b). some (contents b))
        ≡ some (8 ∷ 9 ∷ 7 ∷ 8 ∷ 9 ∷ 7 ∷ []))
    × ((write_from roomy ring 2 >>= λ (n, a, b). some (contents a)) ≡ some (8 ∷ 9 ∷ 7 ∷ 8 ∷ 9 ∷ []))
    × ((resize_buffer ring 8 >>= λ a. some (contents a)) ≡ some (contents ring))
    × (empty (ring_buffer 3) ≡ true)
    × (empty ring ≡ false)
unfolding read write try_read try_write change_written read_advance write_advance read_array
    write_array read_vector write_vector skip reposition repositioned memcpy_within resize
    try_read_vector try_write_vector change_written_vector sum64 fix_read_vector fix_write_vector
    read_into scatter write_from ring_buffer resize_buffer
offsets = (refl, refl, refl, refl, refl, refl, refl, refl, refl, refl)
