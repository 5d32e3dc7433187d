-- ===== src/Http/Session/Buffers.antt =====
-- Buffers that a piece is stored in, for `readFixSize` of src/http/http_session.cc.
use co_lib.Prelude.{
  ℕ, zero, suc, ◌+◌, ◌-◌, ◌≤◌, ◌<◌, leb, [], ◌∷◌, ◌++◌, ◌≡◌, refl, ◌∙◌, ap, some, true, Bytes,
  length, take, drop, arith, length-append, take-append_left, take-append_right, drop-append_right,
  drop-drop, length-take, length-drop, take-all,
}
use co_lib.Http.Session.{store_at}

pub take-drop : (n : ℕ) (xs : Bytes) → take n xs ++ drop n xs ≡ xs
take-drop zero xs = refl
take-drop (suc n) [] = refl
take-drop (suc n) (x ∷ xs) = ap (λ r. x ∷ r) (take-drop n xs)

pub store_at_in :
    (offset : ℕ) (q buffer : Bytes)
    → 0 < length q
    → offset + length q ≤ length buffer
    → store_at offset q buffer ≡ some (take offset buffer ++ (q ++ drop (offset + length q) buffer))
store_at_in offset [] buffer h k = absurd (omega arith)
store_at_in offset (c ∷ q) buffer h k =
    let fits : leb (offset + length (c ∷ q)) (length buffer) ≡ true = ground arith in rw fits refl

-- The buffer after a round keeps what stands before it, and what stands behind.
pub take-patched :
    (offset n : ℕ) (q buffer : Bytes)
    → n ≡ length q
    → offset + n ≤ length buffer
    → take (offset + n) (take offset buffer ++ (q ++ drop (offset + n) buffer))
      ≡ take offset buffer ++ q
take-patched offset n q buffer e h =
    let lt : length (take offset buffer) ≡ offset = omega (arith, length-take offset buffer) in
    take-append_right (offset + n) n (take offset buffer) (q ++ drop (offset + n) buffer)
      (omega arith)
    ∙ ap (λ x. take offset buffer ++ x)
        (take-append_left n q (drop (offset + n) buffer) (omega arith) ∙ take-all n q (omega arith))

pub drop-patched :
    (size offset n : ℕ) (q buffer : Bytes)
    → n ≡ length q
    → offset + n ≤ size
    → size ≤ length buffer
    → drop size (take offset buffer ++ (q ++ drop (offset + n) buffer)) ≡ drop size buffer
drop-patched size offset n q buffer e h k =
    let lt : length (take offset buffer) ≡ offset = omega (arith, length-take offset buffer) in
    drop-append_right size (size - offset) (take offset buffer) (q ++ drop (offset + n) buffer)
      (omega arith)
    ∙ drop-append_right (size - offset) (size - offset - n) q (drop (offset + n) buffer)
        (omega arith)
    ∙ drop-drop size (offset + n) (size - offset - n) buffer (omega arith)

pub length-patched :
    (offset n : ℕ) (q buffer : Bytes)
    → n ≡ length q
    → offset + n ≤ length buffer
    → length (take offset buffer ++ (q ++ drop (offset + n) buffer)) ≡ length buffer
length-patched offset n q buffer e h =
    let l1 : length (take offset buffer ++ (q ++ drop (offset + n) buffer))
        ≡ length (take offset buffer) + length (q ++ drop (offset + n) buffer) =
      length-append (take offset buffer) _ in
    let l2 : length (q ++ drop (offset + n) buffer) ≡ length q + length (drop (offset + n) buffer) =
      length-append q _ in
    omega (arith, l1, l2, length-take offset buffer, length-drop (offset + n) buffer)

-- The piece that is read, and what is left of the stream.
pub take-piece : (n : ℕ) (p rest : Bytes) → take (length (take n p)) (p ++ rest) ≡ take n p
take-piece zero p rest = refl
take-piece (suc n) [] rest = refl
take-piece (suc n) (c ∷ p) rest = ap (λ x. c ∷ x) (take-piece n p rest)

pub drop-piece : (n : ℕ) (p rest : Bytes) → drop (length (take n p)) (p ++ rest) ≡ drop n p ++ rest
drop-piece zero p rest = refl
drop-piece (suc n) [] rest = refl
drop-piece (suc n) (c ∷ p) rest = drop-piece n p rest
