-- ===== src/ByteArray/Tests.antt =====
-- Runs of src/bytearray.cc on blocks of four bytes, and the theorems at such an array.
use co_lib.Prelude.{
  ℕ, ◌*◌, ◌<◌, ◌≤◌, ◌≡◌, refl, List, [], ◌∷◌, Option, some, true, false, arith, length, take,
}
use co_lib.ByteArray.{
  ByteArray, create, update_capacity, write, write_int, write_string, read, read_int,
  update_null_write,
}
use co_lib.ByteArray.Buffers.{get_read_buffers}
use co_lib.ByteArray.Invariant.{contents, IsValid}
use co_lib.ByteArray.Queue.{write-appends, update_null_write-extends, create-IsValid}
use co_lib.ByteArray.Read.{read-takes}
use co_lib.ByteArray.History.{Op, put, get, run, run_queue, cost, are_int, run-refines}

-- 2 to 6 are in the queue; 1 was read.
abbrev sample : ByteArray
sample = record {
  base_size = 4;
  capacity = 6;
  data_size = 5;
  write_index = 2;
  read_index = 1;
  write_node = 1;
  nodes =
      record { ptr = 1 ∷ 2 ∷ 3 ∷ 4 ∷ []; size = 4 }
      ∷ record { ptr = 5 ∷ 6 ∷ 0 ∷ 0 ∷ []; size = 4 }
      ∷ record { ptr = 0 ∷ 0 ∷ 0 ∷ 0 ∷ []; size = 4 }
      ∷ [];
}

sample-IsValid : IsValid sample
sample-IsValid = omega arith

script : List Op
script = put (7 ∷ 8 ∷ 9 ∷ []) ∷ get 6 ∷ get 9 ∷ []

runs : Option (List (List ℕ) × ByteArray) → List (List ℕ)
runs (some (outs, b)) = outs
runs _ = []

run_reads : runs (run script sample) ≡ (2 ∷ 3 ∷ 4 ∷ 5 ∷ 6 ∷ 7 ∷ []) ∷ (8 ∷ 9 ∷ []) ∷ []
unfolding runs run script write_string write_int write read_int read update_capacity
run_reads = refl

-- The blocks of `getReadBuffers` are the rest of the first and the start of the second.
lends :
    get_read_buffers 9 false sample
    ≡ some (
      5,
      record { block = 0; start = 1; len = 3 } ∷ record { block = 1; start = 0; len = 2 } ∷ [],
      sample,
    )
unfolding get_read_buffers
lends = refl

write-appends_example :
    (b : ByteArray) × (write (some (7 ∷ 8 ∷ 9 ∷ [])) 3 sample ≡ some (3, b))
    × (contents b ≡ 2 ∷ 3 ∷ 4 ∷ 5 ∷ 6 ∷ 7 ∷ 8 ∷ 9 ∷ [])
    × (length b.nodes * b.base_size ≤ 19)
    × (b.base_size ≡ 4)
    × IsValid b
write-appends_example =
    write-appends (7 ∷ 8 ∷ 9 ∷ []) 3 sample sample-IsValid (omega arith) (omega arith)

update_null_write-extends_test :
    (b : ByteArray) × (update_null_write 3 sample ≡ some (3, b))
    × (b.data_size ≡ 8)
    × (take 5 (contents b) ≡ 2 ∷ 3 ∷ 4 ∷ 5 ∷ 6 ∷ [])
    × IsValid b
update_null_write-extends_test =
    update_null_write-extends 3 sample sample-IsValid (omega arith) (omega arith)

create-IsValid_test :
    (b : ByteArray) × (create 4 10 ≡ some b) × (contents b ≡ []) × (10 < b.capacity) × IsValid b
create-IsValid_test = create-IsValid 4 10 (omega arith) (omega arith)

read-takes_example :
    (b : ByteArray) × (read true 4 sample ≡ some (4, 2 ∷ 3 ∷ 4 ∷ 5 ∷ [], b))
    × (contents b ≡ 6 ∷ [])
    × (length b.nodes ≡ 3)
    × (b.base_size ≡ 4)
    × IsValid b
read-takes_example = read-takes true 4 sample sample-IsValid

run-refines_example :
    (b : ByteArray) × (run script sample
      ≡ some ((2 ∷ 3 ∷ 4 ∷ 5 ∷ 6 ∷ 7 ∷ []) ∷ (8 ∷ 9 ∷ []) ∷ [], b))
    × (contents b ≡ [])
    × IsValid b
unfolding script run_queue cost are_int
run-refines_example = run-refines script sample sample-IsValid refl (omega arith)
