-- ===== src/Http/Session/Tests.antt =====
-- Sockets of src/http/http_session.cc that give and take bytes piece by piece.
use native.Mathlib.Omega.{arith}
use co_lib.Prelude.{◌≡◌, refl, [], ◌∷◌, ◌++◌, some, none, true, false, Bytes, codes, pos}
use co_lib.Http.Session.{Socket, piece, read_fix_size, write_fix_size}
use co_lib.Http.Session.Reading.{arriving, is_smooth, read_fix_size-reads}
use co_lib.Http.Session.Writing.{is_willing, write_fix_size-writes}
use co_lib.Http.Session.Closed.{read_fix_size-spins}

abbrev socket : Socket
socket = record {
  connected = true;
  arrivals = piece (codes "hel") ∷ piece (codes "lo wo") ∷ piece (codes "rld") ∷ [];
  takes = some 2 ∷ some 1 ∷ [];
  sent = codes "x";
}

abbrev room : Bytes
room = codes "........"

read_fix_size-reads_example :
    (t : Socket) × (read_fix_size 4 5 room socket ≡ some (pos 5, codes "hello" ++ codes "...", t))
    × (arriving t.arrivals ≡ codes " world")
    × (is_smooth t.arrivals ≡ true)
    × (t.connected ≡ true)
read_fix_size-reads_example =
    read_fix_size-reads 4 5 room socket (omega arith) (omega arith) (omega arith) refl refl
      (omega arith)

write_fix_size-writes_example :
    (t : Socket) × (write_fix_size 4 5 (codes "hello!") socket ≡ some (pos 5, t))
    × (t.sent ≡ codes "xhello")
    × (is_willing t.takes ≡ true)
    × (t.connected ≡ true)
write_fix_size-writes_example =
    write_fix_size-writes 4 5 (codes "hello!") socket (omega arith) (omega arith) refl refl
      (omega arith)

read_fix_size-spins_example :
    (read_fix_size 1000000 5 room (record socket { connected = false }) ≡ none)
    × (write_fix_size 1000000 5 room (record socket { connected = false }) ≡ none)
read_fix_size-spins_example =
    read_fix_size-spins 1000000 5 room (record socket { connected = false }) refl (omega arith)
      (omega arith)
