-- ===== src/Scheduler/Round.antt =====
-- One task in the loop of src/scheduler.cc: what the switch into its fiber leaves behind.
use co_lib.Prelude.{
  ℕ, ◌≤◌, ◌≡◌, refl, ap, sym, ◌∙◌, ◌==◌, List, [], ◌∷◌, ◌++◌, map, append-nil, append_assoc, some,
  none, true, false, arith, sub_word,
}
use co_lib.Fiber.{Fiber, Request, of_cb, of_self, is_over, swap_in, set_hold}
use co_lib.Fiber.Lifecycle.{IsAtRest, swap_in-IsAtRest}
use co_lib.Scheduler.{
  Task, Scheduler, Worker, schedule, serve, put, switch_to, release, after_fiber, run_fiber,
}
use co_lib.Scheduler.Queue.{schedule-range, schedule_range_lem}

-- The task that a request of fiber `f` puts on the queue.
abbrev pub task_of : ℕ → Request → Task
task_of f (of_cb c thread) = record { fiber = none; cb = some c; thread = thread }
task_of f (of_self thread) = record { fiber = some f; cb = none; thread = thread }

abbrev pub queued : List Task → ℕ → Scheduler → Scheduler
queued ts n s = record s { fibers = s.fibers ++ ts; tickles = n }

schedule-queued :
    (f : ℕ) (r : Request) (s : Scheduler)
    → (n : ℕ) × (schedule (task_of f r) s ≡ queued (task_of f r ∷ []) n s)
schedule-queued f (of_cb c thread) s = (
  _,
  schedule-range (task_of f (of_cb c thread)) s
      ∙ schedule_range_lem (task_of f (of_cb c thread) ∷ []) s,
)
schedule-queued f (of_self thread) s = (
  _,
  schedule-range (task_of f (of_self thread)) s
      ∙ schedule_range_lem (task_of f (of_self thread) ∷ []) s,
)

serve-cons :
    (f : ℕ) (r : Request) (asked : List Request) (s : Scheduler)
    → serve f (r ∷ asked) s ≡ serve f asked (schedule (task_of f r) s)
unfolding serve
serve-cons f (of_cb c thread) asked s = refl
serve-cons f (of_self thread) asked s = refl

serve-queued :
    (f : ℕ) (asked : List Request) (s : Scheduler)
    → (n : ℕ) × (serve f asked s ≡ queued (map (task_of f) asked) n s)
unfolding serve
serve-queued f [] s = (s.tickles, ap (λ k. record s { fibers = k }) (sym (append-nil s.fibers)))
serve-queued f (r ∷ asked) s =
    let (n, e) = schedule-queued f r s in
    let (m, e') = serve-queued f asked (queued (task_of f r ∷ []) n s) in
    (
      m,
      serve-cons f r asked s
          ∙ ap (serve f asked) e
          ∙ e'
          ∙ ap (λ k. record s { fibers = k; tickles = m })
              (append_assoc s.fibers (task_of f r ∷ []) (map (task_of f) asked)),
    )

-- `s'` is `s` after fiber `f` ran to a switch, which left it as `v`, and asked for tasks.
pub record HasRun (f : ℕ) (v : Fiber) (asked : List Request) (s s' : Scheduler) : Type 0 where
  pub fibers : s'.fibers ≡ s.fibers ++ map (task_of f) asked
  pub active : s'.active ≡ sub_word s.active 1
  pub size : s.size ≤ s'.size
  pub here : s'.heap f ≡ v
  pub elsewhere : (g : ℕ) → (g == f) ≡ false → s'.heap g ≡ s.heap g
  pub flags : (s'.stopping ≡ s.stopping) × (s'.auto_stop ≡ s.auto_stop)

pub switch_to-queued :
    (f : ℕ) (s : Scheduler) (g : Fiber) (asked : List Request)
    → swap_in (s.heap f) ≡ some (g, asked)
    → (n : ℕ) × (switch_to f s ≡ some (queued (map (task_of f) asked) n (put f g s)))
unfolding switch_to
switch_to-queued f s g asked e =
    let (n, e') = serve-queued f asked (put f g s) in (n, rw e (ap some e'))

pub same : (f : ℕ) → (f == f) ≡ true
same f = ground arith

-- The loop handles the fiber of a task that is at rest and not over without a failed assertion: the
-- fiber runs to its next switch and is then HOLD or over, what it asks for is at the end of the
-- queue in its order, no other fiber is touched, and the counter of active threads goes down by one.
pub run_fiber-HasRun :
    (f : ℕ) (w : Worker) (s : Scheduler)
    → IsAtRest (s.heap f)
    → is_over (s.heap f).state ≡ false
    → (g : Fiber) × (asked : List Request) × (s' : Scheduler) × (swap_in (s.heap f)
        ≡ some (g, asked))
      × (run_fiber f w s ≡ some (w, s'))
      × HasRun f (set_hold g) asked s s'
      × IsAtRest (s'.heap f)
unfolding run_fiber after_fiber
run_fiber-HasRun f w s rest h =
    let (g, asked, e, back) = swap_in-IsAtRest (s.heap f) rest h in
    let (n, e') = switch_to-queued f s g asked e in
    let s2 : Scheduler = release (queued (map (task_of f) asked) n (put f g s)) in
    (
      g,
      asked,
      put f (set_hold g) s2,
      e,
      rw e' (rw (same f, back.1) refl),
      record {
        fibers = refl;
        active = refl;
        size = omega arith;
        here = rw (same f) refl;
        elsewhere = λ j d. rw d refl;
        flags = (refl, refl);
      },
      rw (same f) back.0,
    )
