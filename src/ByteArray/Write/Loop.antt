-- ===== src/ByteArray/Write/Loop.antt =====
-- The loop of `write` in src/bytearray.cc ends, and has then copied the whole buffer.
use co_lib.Prelude.{
  ℕ, zero, suc, ◌+◌, ◌-◌, ◌<◌, ◌≡◌, refl, ◌∙◌, inl, inr, List, Option, none, some, arith, ◌==◌,
  Bool-cases,
}
use co_lib.ByteArray.{WriteState, write_loop}
use co_lib.ByteArray.Memory.{memory, write_pos, copy_bytes-nil}
use co_lib.ByteArray.Write.Copy.{HasBytes, HasBytes-le, stored, stored-stored}
use co_lib.ByteArray.Write.Round.{Ready, Wrote, write_body-Round}

stored-zero :
    (buf : Option (List ℕ)) (m : List ℕ) (p start n : ℕ) → n ≡ 0 → m ≡ stored buf m p start n
stored-zero none m p start n e = refl
stored-zero (some buf) m p start n e = rw (e, copy_bytes-nil m p)

Wrote-refl : (buf : Option (List ℕ)) (s : WriteState) → Wrote buf s s
Wrote-refl buf s = record {
  sum_left = refl;
  pos = refl;
  grows = omega arith;
  nodes_length = refl;
  base_size = refl;
  read_index = refl;
  capacity = refl;
  data_size = refl;
  bytes = stored-zero buf (memory s.array.nodes) (write_pos s.array) s.moved _ (omega arith);
}

Wrote-trans :
    (buf : Option (List ℕ)) {s t u : WriteState}
    → HasBytes buf (s.moved + s.left)
    → Wrote buf s t
    → Wrote buf t u
    → Wrote buf s u
Wrote-trans buf {s} {t} {u} h w v = record {
  sum_left = v.sum_left ∙ w.sum_left;
  pos = omega (arith, w.pos, v.pos);
  grows = omega (arith, w.grows, v.grows);
  nodes_length = v.nodes_length ∙ w.nodes_length;
  base_size = v.base_size ∙ w.base_size;
  read_index = v.read_index ∙ w.read_index;
  capacity = v.capacity ∙ w.capacity;
  data_size = v.data_size ∙ w.data_size;
  bytes =
      v.bytes
      ∙ rw w.bytes (
          stored-stored buf (memory s.array.nodes) (write_pos s.array) (write_pos t.array) s.moved
            t.moved (t.moved - s.moved) (u.moved - t.moved) (u.moved - s.moved)
            (HasBytes-le buf _ (s.moved + s.left)
              (omega (arith, w.sum_left, v.sum_left, w.grows, v.grows)) h)
            (omega (arith, w.pos, w.grows)) (omega (arith, w.grows))
            (omega (arith, w.grows, v.grows)));
}

pub record Done (buf : Option (List ℕ)) (f : ℕ) (s : WriteState) : Type 0 where
  pub final : WriteState
  pub result : write_loop f buf s ≡ some final
  pub none_left : final.left ≡ 0
  pub ready : Ready buf final
  pub wrote : Wrote buf s final

pub write_loop-Done :
    (buf : Option (List ℕ)) (f : ℕ) (s : WriteState) → Ready buf s → s.left < f → Done buf f s
unfolding write_loop
write_loop-Done buf zero s r h = absurd (omega arith)
write_loop-Done buf (suc f) s r h = elim (Bool-cases (s.left == 0)) [
  | inl e ↦ record {
    final = s;
    result = rw (e, write_loop);
    none_left = ground arith;
    ready = r;
    wrote = Wrote-refl buf s;
  }
  | inr e ↦
      let (t, step, round) = write_body-Round buf s r (ground arith) in
      let d = write_loop-Done buf f t round.ready (omega (arith, round.smaller)) in
      record {
        final = d.final;
        result = rw (e, write_loop, step) d.result;
        none_left = d.none_left;
        ready = d.ready;
        wrote = Wrote-trans buf r.has_bytes round.wrote d.wrote;
      }
]
