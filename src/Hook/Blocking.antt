-- ===== src/Hook/Blocking.antt =====
-- `do_io` of src/hook.cc against a call that blocks, and its timers.
use co_lib.Prelude.{
  ℕ, ◌≤◌, List, [], ◌∷◌, ◌≡◌, refl, sym, ◌∙◌, ap, inl, inr, Option, some, none, Bool, true, false,
  not, ◌||◌, ◌==◌, if◌then◌else◌, length, arith, Bool-cases,
}
use co_lib.FdManager.{FdCtx, TimeoutType, get_timeout, no_timeout}
use co_lib.Hook.{
  eintr, ebadf, eagain, Answer, returns, fails, Wait, refused, resumed, expired, Action, called,
  armed, disarmed, awaited, Run, end_wait, retry, plain, do_io,
}

-- What a call that blocks, and is started again after a signal, would return.
abbrev pub blocking : List Answer → Option Answer
blocking [] = none
blocking (returns n ∷ answers) = some (returns n)
blocking (fails e ∷ answers) =
    let later = blocking answers in
    if e == eintr then later else if e == eagain then later else some (fails e)

abbrev pub all_resumed : List Wait → Bool
all_resumed [] = true
all_resumed (resumed ∷ waits) = all_resumed waits
all_resumed (expired ∷ waits) = false
all_resumed (refused e ∷ waits) = false

retry-blocking :
    (to : ℕ) (answers : List Answer) (waits : List Wait)
    → all_resumed waits ≡ true
    → length answers ≤ length waits
    → (retry to answers waits).1 ≡ blocking answers
unfolding retry
retry-blocking to [] waits h k = refl
retry-blocking to (returns n ∷ answers) waits h k = refl
retry-blocking to (fails e ∷ answers) [] h k = absurd (omega arith)
retry-blocking to (fails e ∷ answers) (expired ∷ waits) h k = absurd (cc)
retry-blocking to (fails e ∷ answers) (refused e' ∷ waits) h k = absurd (cc)
retry-blocking to (fails e ∷ answers) (resumed ∷ waits) h k = elim (Bool-cases (e == eintr)) [
  | inl p ↦ rw p (retry-blocking to answers (resumed ∷ waits) h (omega arith))
  | inr p ↦ elim (Bool-cases (e == eagain)) [
    | inl q ↦ rw (p, q) (retry-blocking to answers waits h (omega arith))
    | inr q ↦ rw (p, q) refl
  ]
]

do_io-retry :
    (c : FdCtx) (kind : TimeoutType) (answers : List Answer) (waits : List Wait)
    → c.is_closed ≡ false
    → c.is_socket ≡ true
    → c.user_nonblock ≡ false
    → do_io true (some c) kind answers waits ≡ retry (get_timeout kind c) answers waits
unfolding do_io
do_io-retry c kind answers waits live sock blocks =
    let run = retry (get_timeout kind c) answers waits in
    ap
      (λ b.
        if b
        then ([], some (fails ebadf))
        else if not c.is_socket || c.user_nonblock
        then plain answers
        else run)
      live
    ∙ ap (λ b. if not b || c.user_nonblock then plain answers else run) sock
    ∙ ap (λ b. if b then plain answers else run) blocks

-- `do_io` on an open socket that the program has not made non-blocking, whose waits all end with the event and are no
-- fewer than the answers of the system's call: it returns what a call that blocks would, that is the first answer that
-- is neither EINTR nor EAGAIN, although the system's call never blocks.
pub do_io-blocking :
    (c : FdCtx) (kind : TimeoutType) (answers : List Answer) (waits : List Wait)
    → c.is_closed ≡ false
    → c.is_socket ≡ true
    → c.user_nonblock ≡ false
    → all_resumed waits ≡ true
    → length answers ≤ length waits
    → (do_io true (some c) kind answers waits).1 ≡ blocking answers
do_io-blocking c kind answers waits live sock blocks h k =
    ap (λ r. r.1) (do_io-retry c kind answers waits live sock blocks)
    ∙ retry-blocking (get_timeout kind c) answers waits h k

-- Of the actions, with a timer that is live or not: no timer is added while one is live, one is live in a wait
-- exactly if there is a timeout, and none is live at the end.
abbrev pub is_guarded : Bool → Bool → List Action → Bool
is_guarded timed live [] = not live
is_guarded timed true (armed ∷ more) = false
is_guarded timed false (armed ∷ more) = is_guarded timed true more
is_guarded timed true (disarmed ∷ more) = is_guarded timed false more
is_guarded timed false (disarmed ∷ more) = false
is_guarded true true (awaited ∷ more) = is_guarded true true more
is_guarded true false (awaited ∷ more) = false
is_guarded false true (awaited ∷ more) = false
is_guarded false false (awaited ∷ more) = is_guarded false false more
is_guarded timed live (called ∷ more) = is_guarded timed live more

-- A run that ends, ends with no timer.
abbrev Guards : ℕ → Run → Type 0
Guards to r = (a : Answer) → r.1 ≡ some a → is_guarded (not (to == no_timeout)) false r.0 ≡ true

end_wait-Guards : (to : ℕ) (w : Wait) (more : Run) → Guards to more → Guards to (end_wait to w more)
end_wait-Guards to (refused e) more h a k = elim (Bool-cases (to == no_timeout)) [
  | inl p ↦ rw p refl
  | inr p ↦ rw p refl
]
end_wait-Guards to resumed more h a k = elim (Bool-cases (to == no_timeout)) [
  | inl p ↦ let g = h a k in rw p (rw p at g)
  | inr p ↦ let g = h a k in rw p (rw p at g)
]
end_wait-Guards to expired more h a k = elim (Bool-cases (to == no_timeout)) [
  | inl p ↦ let g = h a (rw p at k) in rw p (rw p at g)
  | inr p ↦ rw p refl
]

retry-Guards :
    (to : ℕ) (answers : List Answer) (waits : List Wait) → Guards to (retry to answers waits)
unfolding retry
retry-Guards to [] waits a k = absurd (cc)
retry-Guards to (returns n ∷ answers) waits a k = refl
retry-Guards to (fails e ∷ answers) [] a k = elim (Bool-cases (e == eintr)) [
  | inl p ↦ rw p (retry-Guards to answers [] a (rw p at k))
  | inr p ↦ elim (Bool-cases (e == eagain)) [
    | inl q ↦ let k' : none ≡ some a = rw (p, q) at k in absurd (cc)
    | inr q ↦ rw (p, q) refl
  ]
]
retry-Guards to (fails e ∷ answers) (w ∷ waits) a k = elim (Bool-cases (e == eintr)) [
  | inl p ↦ rw p (retry-Guards to answers (w ∷ waits) a (rw p at k))
  | inr p ↦ elim (Bool-cases (e == eagain)) [
    | inl q ↦
        rw (p, q)
          (end_wait-Guards to w (retry to answers waits) (retry-Guards to answers waits) a
            (rw (p, q) at k))
    | inr q ↦ rw (p, q) refl
  ]
]

-- `do_io` of an open socket that the program has not made non-blocking, however the system's calls answer and the waits
-- end: it adds no timer while one is live, one is live in each wait exactly if the socket has a timeout of this kind, and
-- when it returns no timer is live.
pub do_io-is_guarded :
    (c : FdCtx) (kind : TimeoutType) (answers : List Answer) (waits : List Wait) (a : Answer)
    → c.is_closed ≡ false
    → c.is_socket ≡ true
    → c.user_nonblock ≡ false
    → (do_io true (some c) kind answers waits).1 ≡ some a
    → is_guarded
        (not (get_timeout kind c == no_timeout))
        false
        (do_io true (some c) kind answers waits).0
      ≡ true
do_io-is_guarded c kind answers waits a live sock blocks h =
    let e = do_io-retry c kind answers waits live sock blocks in
    ap (λ r. is_guarded (not (get_timeout kind c == no_timeout)) false r.0) e
    ∙ retry-Guards (get_timeout kind c) answers waits a (ap (λ r. r.1) (sym e) ∙ h)
