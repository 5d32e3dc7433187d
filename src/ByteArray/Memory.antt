-- ===== src/ByteArray/Memory.antt =====
-- The blocks of a byte array laid end to end, and what the copies of src/bytearray.cc do there.
use co_lib.Prelude.{
  ℕ, zero, suc, ◌+◌, ◌*◌, ◌≤◌, ◌≡◌, refl, sym, ap, ◌∙◌, List, [], ◌∷◌, ◌++◌, append_assoc, arith,
  length, take, drop, length-append,
}
use co_lib.ByteArray.{Node, ByteArray, copy_bytes, copy_into}

abbrev pub memory : List Node → List ℕ
memory [] = []
memory (nd ∷ nds) = nd.ptr ++ memory nds

abbrev pub AllSized : ℕ → List Node → Type 0
AllSized base [] = Unit
AllSized base (nd ∷ nds) = (length nd.ptr ≡ base) × (nd.size ≡ base) × AllSized base nds

-- The place in the memory of the next byte to write.
abbrev pub write_pos : ByteArray → ℕ
write_pos b = b.write_node * b.base_size + b.write_index

pub memory-append : (xs ys : List Node) → memory (xs ++ ys) ≡ memory xs ++ memory ys
memory-append [] ys = refl
memory-append (nd ∷ xs) ys =
    ap (◌++◌ nd.ptr) (memory-append xs ys) ∙ sym (append_assoc nd.ptr (memory xs) (memory ys))

pub AllSized-append :
    (base : ℕ) (xs ys : List Node) → AllSized base xs → AllSized base ys → AllSized base (xs ++ ys)
AllSized-append base [] ys h k = k
AllSized-append base (nd ∷ xs) ys h k = (h.0, h.1, AllSized-append base xs ys h.2 k)

pub length-memory :
    (base : ℕ) (nds : List Node) → AllSized base nds → length (memory nds) ≡ length nds * base
length-memory base [] h = omega arith
length-memory base (nd ∷ nds) h =
    omega (arith, length-append nd.ptr (memory nds), length-memory base nds h.2)

pub length-copy_bytes :
    (xs : List ℕ) (i : ℕ) (src : List ℕ) → length (copy_bytes xs i src) ≡ length xs
length-copy_bytes [] i src = refl
length-copy_bytes (x ∷ xs) zero [] = refl
length-copy_bytes (x ∷ xs) zero (y ∷ ys) = ap suc (length-copy_bytes xs zero ys)
length-copy_bytes (x ∷ xs) (suc i) src = ap suc (length-copy_bytes xs i src)

pub copy_bytes-nil : (xs : List ℕ) (i : ℕ) → copy_bytes xs i [] ≡ xs
copy_bytes-nil [] i = refl
copy_bytes-nil (x ∷ xs) zero = refl
copy_bytes-nil (x ∷ xs) (suc i) = ap (◌∷◌ x) (copy_bytes-nil xs i)

copy_bytes-append_left :
    (xs ys : List ℕ) (i : ℕ) (src : List ℕ)
    → i + length src ≤ length xs
    → copy_bytes (xs ++ ys) i src ≡ copy_bytes xs i src ++ ys
copy_bytes-append_left [] ys i [] h = copy_bytes-nil ys i
copy_bytes-append_left [] ys i (y ∷ src) h = absurd (omega arith)
copy_bytes-append_left (x ∷ xs) ys zero [] h = refl
copy_bytes-append_left (x ∷ xs) ys zero (y ∷ src) h =
    ap (◌∷◌ y) (copy_bytes-append_left xs ys zero src (omega arith))
copy_bytes-append_left (x ∷ xs) ys (suc i) src h =
    ap (◌∷◌ x) (copy_bytes-append_left xs ys i src (omega arith))

copy_bytes-append_right :
    (xs ys : List ℕ) (k i : ℕ) (src : List ℕ)
    → k ≡ length xs + i
    → copy_bytes (xs ++ ys) k src ≡ xs ++ copy_bytes ys i src
copy_bytes-append_right [] ys k i src e = ap (λ j. copy_bytes ys j src) (omega arith)
copy_bytes-append_right (x ∷ xs) ys zero i src e = absurd (omega arith)
copy_bytes-append_right (x ∷ xs) ys (suc k) i src e =
    ap (◌∷◌ x) (copy_bytes-append_right xs ys k i src (omega arith))

-- Two copies, the second where the first ends, are one.
pub copy_bytes-copy_bytes :
    (xs : List ℕ) (p q : ℕ) (a c : List ℕ)
    → q ≡ p + length a
    → copy_bytes (copy_bytes xs p a) q c ≡ copy_bytes xs p (a ++ c)
copy_bytes-copy_bytes [] p q a c e = refl
copy_bytes-copy_bytes (x ∷ xs) zero q [] c e =
    let e' : q ≡ 0 = omega arith in ap (λ j. copy_bytes (x ∷ xs) j c) e'
copy_bytes-copy_bytes (x ∷ xs) zero zero (y ∷ a) c e = absurd (omega arith)
copy_bytes-copy_bytes (x ∷ xs) zero (suc q) (y ∷ a) c e =
    ap (◌∷◌ y) (copy_bytes-copy_bytes xs zero q a c (omega arith))
copy_bytes-copy_bytes (x ∷ xs) (suc p) zero a c e = absurd (omega arith)
copy_bytes-copy_bytes (x ∷ xs) (suc p) (suc q) a c e =
    ap (◌∷◌ x) (copy_bytes-copy_bytes xs p q a c (omega arith))

take-copy_bytes :
    (xs : List ℕ) (d k : ℕ) (src : List ℕ)
    → k ≡ d + length src
    → k ≤ length xs
    → take k (copy_bytes xs d src) ≡ take d xs ++ src
take-copy_bytes [] zero zero [] e h = refl
take-copy_bytes [] zero zero (y ∷ src) e h = absurd (omega arith)
take-copy_bytes [] (suc d) zero src e h = absurd (omega arith)
take-copy_bytes [] d (suc k) src e h = absurd (omega arith)
take-copy_bytes (x ∷ xs) zero zero [] e h = refl
take-copy_bytes (x ∷ xs) zero (suc k) [] e h = absurd (omega arith)
take-copy_bytes (x ∷ xs) zero zero (y ∷ src) e h = absurd (omega arith)
take-copy_bytes (x ∷ xs) zero (suc k) (y ∷ src) e h =
    ap (◌∷◌ y) (take-copy_bytes xs zero k src (omega arith) (omega arith))
take-copy_bytes (x ∷ xs) (suc d) zero src e h = absurd (omega arith)
take-copy_bytes (x ∷ xs) (suc d) (suc k) src e h =
    ap (◌∷◌ x) (take-copy_bytes xs d k src (omega arith) (omega arith))

-- A copy just past the first `d` bytes from `r` on extends them.
pub window-copy_bytes :
    (xs : List ℕ) (r d k q : ℕ) (src : List ℕ)
    → q ≡ r + d
    → k ≡ d + length src
    → r + k ≤ length xs
    → take k (drop r (copy_bytes xs q src)) ≡ take d (drop r xs) ++ src
window-copy_bytes xs zero d k q src e f h =
    let e' : q ≡ d = omega arith in rw e' (take-copy_bytes xs d k src f (omega arith))
window-copy_bytes [] (suc r) d k q src e f h = absurd (omega arith)
window-copy_bytes (x ∷ xs) (suc r) d k zero src e f h = absurd (omega arith)
window-copy_bytes (x ∷ xs) (suc r) d k (suc q) src e f h =
    window-copy_bytes xs r d k q src (omega arith) f (omega arith)

pub length-copy_into :
    (nds : List Node) (k i : ℕ) (src : List ℕ) → length (copy_into nds k i src) ≡ length nds
length-copy_into [] k i src = refl
length-copy_into (nd ∷ nds) zero i src = refl
length-copy_into (nd ∷ nds) (suc k) i src = ap suc (length-copy_into nds k i src)

pub AllSized-copy_into :
    (base : ℕ) (nds : List Node) (k i : ℕ) (src : List ℕ)
    → AllSized base nds
    → AllSized base (copy_into nds k i src)
AllSized-copy_into base [] k i src h = tt
AllSized-copy_into base (nd ∷ nds) zero i src h = (length-copy_bytes nd.ptr i src ∙ h.0, h.1, h.2)
AllSized-copy_into base (nd ∷ nds) (suc k) i src h =
    (h.0, h.1, AllSized-copy_into base nds k i src h.2)

-- A copy into a block is a copy into the memory.
pub memory-copy_into :
    (base : ℕ) (nds : List Node) (k i p : ℕ) (src : List ℕ)
    → AllSized base nds
    → i + length src ≤ base
    → p ≡ k * base + i
    → memory (copy_into nds k i src) ≡ copy_bytes (memory nds) p src
memory-copy_into base [] k i p src h le e = refl
memory-copy_into base (nd ∷ nds) zero i p src h le e =
    let e' : i ≡ p = omega arith in
    ap (λ j. copy_bytes nd.ptr j src ++ memory nds) e'
    ∙ sym (copy_bytes-append_left nd.ptr (memory nds) p src (omega arith))
memory-copy_into base (nd ∷ nds) (suc k) i p src h le e =
    ap (◌++◌ nd.ptr) (memory-copy_into base nds k i (k * base + i) src h.2 le refl)
    ∙ sym (copy_bytes-append_right nd.ptr (memory nds) p (k * base + i) src (omega arith))
