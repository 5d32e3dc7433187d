-- ===== src/IoManager/Contexts.antt =====
-- The contexts of src/iomanager.cc: which events are registered, and what a context then holds.
use co_lib.Prelude.{
  ℕ, zero, suc, ◌+◌, ◌-◌, ◌%◌, ◌≤◌, ◌≡◌, refl, ◌∙◌, subst, List, [], ◌∷◌, ◌++◌, some, Bool, true,
  false, not, ◌&&◌, ◌||◌, if◌then◌else◌, length, get-append, get_elem?, set, replicate, take-all,
  length-append, length-replicate, word_mod, arith,
}
use co_lib.Scheduler.{is_given}
use co_lib.IoManager.{
  EventContext, FdContext, new_context, is_empty_context, IoManager, context_resize,
}

-- How many events a context has registered.
abbrev pub registered : FdContext → ℕ
registered c = (if c.events.read then 1 else 0) + (if c.events.write then 1 else 0)

abbrev pub count_events : List FdContext → ℕ
count_events [] = 0
count_events (c ∷ cs) = registered c + count_events cs

-- The context of a registered event has a scheduler, and either a fiber or a callback; that of
-- another event is empty.
abbrev pub is_consistent : Bool → EventContext → Bool
is_consistent true x =
    x.scheduler && (is_given x.fiber || is_given x.cb) && not (is_given x.fiber && is_given x.cb)
is_consistent false x = is_empty_context x

abbrev pub is_sound : FdContext → Bool
is_sound c = is_consistent c.events.read c.read && is_consistent c.events.write c.write

abbrev pub all_sound : List FdContext → Bool
all_sound [] = true
all_sound (c ∷ cs) = is_sound c && all_sound cs

pub record IsValid (m : IoManager) : Type 0 where
  pub sound : all_sound m.contexts ≡ true
  pub counted : m.pending ≡ count_events m.contexts % word_mod
  pub room : 2 ≤ length m.contexts

pub count-set :
    (cs : List FdContext) (i : ℕ) (c c' : FdContext)
    → get_elem? cs i ≡ some c
    → count_events (set cs i c') + registered c ≡ count_events cs + registered c'
count-set [] i c c' h = absurd (ground arith)
count-set (x ∷ cs) zero c c' h = let e : x ≡ c = cc in rw e (omega arith)
count-set (x ∷ cs) (suc i) c c' h = omega (arith, count-set cs i c c' h)

pub all_sound-get :
    (cs : List FdContext) (i : ℕ) (c : FdContext)
    → all_sound cs ≡ true
    → get_elem? cs i ≡ some c
    → is_sound c ≡ true
all_sound-get [] i c s h = absurd (ground arith)
all_sound-get (x ∷ cs) zero c s h =
    let e : x ≡ c = cc in subst (λ k. is_sound k ≡ true) e (ground arith)
all_sound-get (x ∷ cs) (suc i) c s h = all_sound-get cs i c (ground arith) h

pub all_sound-set :
    (cs : List FdContext) (i : ℕ) (c : FdContext)
    → all_sound cs ≡ true
    → is_sound c ≡ true
    → all_sound (set cs i c) ≡ true
all_sound-set [] i c s h = refl
all_sound-set (x ∷ cs) zero c s h = ground arith
all_sound-set (x ∷ cs) (suc i) c s h = ground (arith, all_sound-set cs i c)

count-replicate : (n : ℕ) → count_events (replicate n new_context) ≡ 0
count-replicate zero = refl
count-replicate (suc n) = omega (arith, count-replicate n)

count-append :
    (cs ds : List FdContext) → count_events (cs ++ ds) ≡ count_events cs + count_events ds
count-append [] ds = omega arith
count-append (c ∷ cs) ds = omega (arith, count-append cs ds)

sound-replicate : (n : ℕ) → all_sound (replicate n new_context) ≡ true
sound-replicate zero = refl
sound-replicate (suc n) = sound-replicate n

sound-append :
    (cs ds : List FdContext)
    → all_sound cs ≡ true
    → all_sound ds ≡ true
    → all_sound (cs ++ ds) ≡ true
sound-append [] ds h g = g
sound-append (c ∷ cs) ds h g = ground (arith, sound-append cs ds)

-- Growth adds contexts without events.
pub context_resize_lem :
    (n : ℕ) (cs : List FdContext)
    → length cs ≤ n
    → all_sound cs ≡ true
    → (all_sound (context_resize n cs) ≡ true)
      × (count_events (context_resize n cs) ≡ count_events cs)
      × (length (context_resize n cs) ≡ n)
      × ((i : ℕ) (c : FdContext)
          → get_elem? cs i ≡ some c
          → get_elem? (context_resize n cs) i ≡ some c)
unfolding context_resize
context_resize_lem n cs h s = rw (take-all n cs h) (
  sound-append cs _ s (sound-replicate (n - length cs)),
  count-append cs (replicate (n - length cs) new_context)
      ∙ rw (count-replicate (n - length cs)) (omega arith),
  length-append cs (replicate (n - length cs) new_context)
      ∙ omega (arith, length-replicate (n - length cs) new_context),
  get-append cs (replicate (n - length cs) new_context),
)
