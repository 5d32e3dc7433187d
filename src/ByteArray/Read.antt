-- ===== src/ByteArray/Read.antt =====
-- `read` and `updateNullRead` of src/bytearray.cc: the loop ends, and the call takes the front of
-- the queue.
pub mod State
pub mod Round
use co_lib.Prelude.{
  ℕ, zero, suc, ◌+◌, ◌-◌, ◌<◌, ◌≤◌, ◌≡◌, refl, sym, ◌∙◌, ap, inl, inr, List, [], ◌++◌, Option, some,
  none, true, false, arith, length, take, drop, min, sub_word, ltb, ◌==◌, Bool-cases, append_assoc,
  append-nil, length-append, take-append_left, drop-append_right, take-all, drop-all, ltb→lt,
  ltb_false→le, word_mod, subst,
}
use co_lib.ByteArray.{
  ByteArray, ReadState, HasBuffer, copy_out, read_body, read_loop, finish_read, clip, read,
  update_null_read,
}
use co_lib.ByteArray.Invariant.{contents, IsValid, length-contents}
use State.{settled, Ready, Took}
use Round.{read_body-Round}

copy_out-append :
    (h : HasBuffer) (out xs ys : List ℕ)
    → copy_out h (copy_out h out xs) ys ≡ copy_out h out (xs ++ ys)
copy_out-append true out xs ys = append_assoc out xs ys
copy_out-append false out xs ys = refl

copy_out-nil : (h : HasBuffer) (out : List ℕ) → out ≡ copy_out h out []
copy_out-nil true out = sym (append-nil out)
copy_out-nil false out = refl

Took-refl : (h : HasBuffer) (s : ReadState) → Took h s s
Took-refl h s = record {
  taken = [];
  queue = refl;
  count = omega arith;
  out = copy_out-nil h s.out;
  sum_left = refl;
  data_size = refl;
  base_size = refl;
  nodes_length = refl;
}

Took-trans : (h : HasBuffer) {s t u : ReadState} → Took h s t → Took h t u → Took h s u
Took-trans h {s} {t} {u} v w = record {
  taken = v.taken ++ w.taken;
  queue = v.queue ∙ rw w.queue (sym (append_assoc v.taken w.taken (contents (settled u))));
  count = omega (arith, length-append v.taken w.taken, v.count, w.count);
  out = w.out ∙ rw v.out (copy_out-append h s.out v.taken w.taken);
  sum_left = w.sum_left ∙ v.sum_left;
  data_size = w.data_size ∙ v.data_size;
  base_size = w.base_size ∙ v.base_size;
  nodes_length = w.nodes_length ∙ v.nodes_length;
}

record Done (h : HasBuffer) (f : ℕ) (s : ReadState) : Type 0 where
  final : ReadState
  result : read_loop f h s ≡ some final
  none_left : final.left ≡ 0
  ready : Ready final
  took : Took h s final

read_loop-Done : (h : HasBuffer) (f : ℕ) (s : ReadState) → Ready s → s.left < f → Done h f s
unfolding read_loop
read_loop-Done h zero s r lt = absurd (omega arith)
read_loop-Done h (suc f) s r lt = elim (Bool-cases (s.left == 0)) [
  | inl e ↦ record {
    final = s;
    result = rw (e, read_loop);
    none_left = ground arith;
    ready = r;
    took = Took-refl h s;
  }
  | inr e ↦
      let (t, step, round) = read_body-Round h s r (ground arith) in
      let d = read_loop-Done h f t round.ready (omega (arith, round.smaller)) in
      record {
        final = d.final;
        result = rw (e, read_loop, step) d.result;
        none_left = d.none_left;
        ready = d.ready;
        took = Took-trans h round.took d.took;
      }
]

abbrev start_state : ℕ → ByteArray → ReadState
start_state n b = record { array = b; out = []; moved = 0; left = n }

read_eq_some :
    (h : HasBuffer) (size : ℕ) (b : ByteArray) (t : ReadState)
    → read_loop (suc (clip size b)) h (start_state (clip size b) b) ≡ some t
    → read h size b ≡ some (finish_read t)
unfolding read
read_eq_some h size b t e = rw (read, e)

-- The first part of an append, and what is left behind it.
split_append :
    {xs ys zs : List ℕ} (n : ℕ)
    → xs ≡ ys ++ zs
    → length ys ≡ n
    → (take n xs ≡ ys) × (drop n xs ≡ zs)
split_append {xs} {ys} {zs} n e h = (
  rw (e, take-append_left n ys zs (omega arith)) (take-all n ys (omega arith)),
  rw (e, drop-append_right n 0 ys zs (omega arith)),
)

clip-le : (size : ℕ) (b : ByteArray) → clip size b ≤ b.data_size
clip-le size b = ground arith

-- A size past the end of the queue reads the whole of it.
clip_lem :
    (size : ℕ) (b : ByteArray) (c : List ℕ)
    → length c ≡ b.data_size
    → (take size c ≡ take (clip size b) c) × (drop size c ≡ drop (clip size b) c)
clip_lem size b c h = elim (Bool-cases (ltb size b.data_size)) [
  | inl e ↦ rw e (refl, refl)
  | inr e ↦
      let le = ltb_false→le _ _ e in
      rw e (
        take-all size c (omega (arith, le)) ∙ sym (take-all b.data_size c (omega arith)),
        drop-all size c (omega (arith, le)) ∙ sym (drop-all b.data_size c (omega arith)),
      )
]

module _ (b : ByteArray) (v : IsValid b) where
  start-Ready : (n : ℕ) → n ≤ b.data_size → Ready (start_state n b)
  start-Ready n le = record {
    valid = subst IsValid (ap (λ d. record b { data_size = d }) (omega arith)) v;
    enough = omega arith;
  }

  data_size-lt : b.data_size < word_mod
  data_size-lt = omega (arith, v.fill, v.room, v.fits)

-- `read` of a valid array returns how many bytes it took, the smaller of `size` and the bytes that
-- there are; with a buffer it copies that many from the front of the queue, without one it copies
-- nothing; it leaves the rest of the queue and a valid array with as many blocks of the same
-- size.
pub read-takes :
    (has_buf : HasBuffer) (size : ℕ) (b : ByteArray)
    → IsValid b
    → (b' : ByteArray) × (read has_buf size b
        ≡ some (clip size b, copy_out has_buf [] (take size (contents b)), b'))
      × (contents b' ≡ drop size (contents b))
      × (length b'.nodes ≡ length b.nodes)
      × (b'.base_size ≡ b.base_size)
      × IsValid b'
read-takes has_buf size b v =
    ((finish_read t).2, result, queue, took.nodes_length, took.base_size, valid)
  where
    n : ℕ
    n = clip size b

    d : Done has_buf (suc n) (start_state n b)
    d =
        read_loop-Done has_buf (suc n) (start_state n b) (start-Ready b v n (clip-le size b))
          (omega arith)

    open d use {final as t, took}

    all : t.moved ≡ n
    all = omega (arith, took.sum_left, d.none_left)

    same : settled t ≡ (finish_read t).2
    same =
        ap (λ k. record t.array { data_size = k })
          (omega (arith, all, took.data_size, clip-le size b, data_size-lt b v))

    whole : contents (settled (start_state n b)) ≡ contents b
    whole = ap (λ k. contents (record b { data_size = k })) (omega arith)

    split : (take n (contents b) ≡ took.taken) × (drop n (contents b) ≡ contents (settled t))
    split = split_append n (sym whole ∙ took.queue) (omega (arith, all, took.count))

    clipped :
        (take size (contents b) ≡ take n (contents b))
        × (drop size (contents b) ≡ drop n (contents b))
    clipped = clip_lem size b (contents b) (length-contents v)

    result :
        read has_buf size b
        ≡ some (n, copy_out has_buf [] (take size (contents b)), (finish_read t).2)
    result = read_eq_some has_buf size b t d.result ∙ rw (clipped.0, split.0, took.out, all)

    queue : contents (finish_read t).2 ≡ drop size (contents b)
    queue = ap contents (sym same) ∙ sym split.1 ∙ sym clipped.1

    valid : IsValid (finish_read t).2
    valid = subst IsValid same d.ready.valid
