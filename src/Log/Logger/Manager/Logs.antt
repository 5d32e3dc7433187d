-- ===== src/Log/Logger/Manager/Logs.antt =====
-- src/log.cc: a logger that `getLogger` gives can always log.
use mathlib.Core.Option.{some-injective}
use co_lib.Prelude.{
  ℕ, zero, suc, ◌<◌, List, [], ◌∷◌, ◌++◌, ◌≡◌, refl, sym, ◌∙◌, ap, subst, inl, inr, ◌⊎◌, Option,
  some, none, Bytes, bytes_eq, codes, get_elem?, set, length, get-set_same, get-snoc_cases,
  length-append, arith, Bool-cases, Option-cases, bind-some, ◌>>=◌,
}
use co_lib.Log.{Level, debug, LogEvent}
use co_lib.Log.Formatter.{LogFormatter}
use co_lib.Log.Formatter.Texts.{new_formatter-ends}
use co_lib.Log.Logger.{
  Appender, LoggerData, LogState, Logged, put_appender, lend_formatter, add_appender, log,
  stdout_sink,
}
use co_lib.Log.Logger.Ready.{AllHave-snoc, IsReady, IsBelow, put-Evolves}
use co_lib.Log.Logger.Logging.{log-LogsFrom, log-Evolves, AreReady}
use co_lib.Log.Logger.Manager.{
  find_name, create_appender, default_pattern, new_logger, add_logger, get_logger, new_manager,
  root_index, Call, perform, Reach, start, then_call, got_state, logged_state, gets_logger,
  creates_appender, adds_appender, dels_appender, clears_appender, sets_formatter,
  sets_appender_formatter, sets_pattern, sets_level, sets_appender_level, logs,
}
use co_lib.Log.Logger.Manager.Sound.{
  IsSound, Evolves-IsSound, lend_formatter-HasFormatter, change-IsSound,
  set_appender_formatter-IsSound, set_appender_level-IsSound, set_level-IsSound,
  clear_appender-IsSound, del_appender-IsSound, set_formatter-IsSound, set_pattern-IsSound,
  create_appender-IsSound,
}

add_appender-IsSound :
    (i j : ℕ) (s : LogState) {t : LogState} → IsSound s → add_appender i j s ≡ some t → IsSound t
unfolding add_appender
add_appender-IsSound i j s h e =
    let (l, el, e1) = bind-some (get_elem? s.loggers i) _ e in
    let (a, ea, e2) = bind-some (get_elem? s.appenders j) _ e1 in
    let (f, ef) = (h.are_ready i l el).filled in
    let b = lend_formatter l.formatter a in
    let filled =
      subst (λ o. (g : LogFormatter) × ((lend_formatter o a).formatter ≡ some g)) (sym ef)
        (lend_formatter-HasFormatter f a) in
    subst IsSound (some-injective _ _ e2) (
      change-IsSound i l (record l { appenders = l.appenders ++ (j ∷ []) }) (put_appender j b s)
        (Evolves-IsSound (put-Evolves s j a b ea (λ k. filled)) h) el
        (λ r. record {
          filled = r.filled;
          all_have =
              AllHave-snoc (set s.appenders j b) l.appenders j r.all_have
                (b, get-set_same s.appenders j a b ea, filled);
          below = r.below;
        }))

-- A new logger has a formatter and no appender.
new_logger-IsReady :
    (name : Bytes) (root : Option ℕ) (xs : List Appender) (i : ℕ)
    → IsBelow i root
    → (l : LoggerData) × (new_logger name root ≡ some l) × IsReady xs i l
unfolding new_logger
new_logger-IsReady name root xs i h =
    let (f, e) = new_formatter-ends default_pattern in
    let l : LoggerData = record {
      name = name;
      level = debug;
      appenders = [];
      formatter = some f;
      root = root;
    } in
    (
      l,
      ap
          (λ o. o >>= λ g. some (record {
            name = name;
            level = debug;
            appenders = [];
            formatter = some g;
            root = root;
          }))
          e,
      record { filled = (f, refl); all_have = tt; below = h },
    )

find_name-snoc :
    (name key : Bytes) (i j : ℕ) (m : List (Bytes × ℕ))
    → find_name name (m ++ ((key, i) ∷ [])) ≡ some j
    → (i ≡ j) ⊎ (find_name name m ≡ some j)
find_name-snoc name key i j [] h = elim (Bool-cases (bytes_eq key name)) [
  | inl e ↦ inl (let h' : some i ≡ some j = rw e at h in some-injective _ _ h')
  | inr e ↦ let h' : none ≡ some j = rw e at h in absurd (cc)
]
find_name-snoc name key i j ((k, n) ∷ m) h = elim (Bool-cases (bytes_eq k name)) [
  | inl e ↦ inr (rw e (rw e at h))
  | inr e ↦ rw e (find_name-snoc name key i j m (rw e at h))
]

add_logger-IsSound :
    (name : Bytes) (l : LoggerData) (s : LogState)
    → IsSound s
    → IsReady s.appenders (length s.loggers) l
    → IsSound (add_logger name l s).1
add_logger-IsSound name l s h r = record {
  are_ready = λ i k e. elim (get-snoc_cases s.loggers l i k e) [
    | inl (p, q) ↦
        subst (λ n. IsReady s.appenders n k) (sym p)
          (subst (IsReady s.appenders (length s.loggers)) q r)
    | inr e' ↦ h.are_ready i k e'
  ];
  rooted = rw (length-append s.loggers (l ∷ [])) (omega arith);
  named = λ key i e. elim (find_name-snoc key name (length s.loggers) i s.names e) [
    | inl p ↦ rw (length-append s.loggers (l ∷ [])) (omega arith)
    | inr e' ↦ rw (length-append s.loggers (l ∷ [])) (omega (arith, h.named key i e'))
  ];
}

-- `getLogger` gives a logger.
Gives : Bytes → LogState → Type 0
Gives name s =
    (r : ℕ × LogState) × (get_logger name s ≡ some r) × IsSound r.1 × (r.0 < length r.1.loggers)

get_logger-Gives : (name : Bytes) (s : LogState) → IsSound s → Gives name s
unfolding Gives get_logger
get_logger-Gives name s h = elim (Option-cases (find_name name s.names)) [
  | inr (i, e) ↦ ((i, s), rw e refl, h, h.named name i e)
  | inl e ↦
      let (l, el, r) =
        new_logger-IsReady name (some root_index) s.appenders (length s.loggers) h.rooted in
      (
        add_logger name l s,
        rw (e, el) refl,
        add_logger-IsSound name l s h r,
        rw (length-append s.loggers (l ∷ [])) (omega arith),
      )
]

only-AreReady :
    (l : LoggerData)
    → IsReady [] 0 l
    → (names : List (Bytes × ℕ))
    → AreReady (record { appenders = []; loggers = l ∷ []; names = names })
only-AreReady l r names zero k e = subst (IsReady [] 0) (some-injective _ _ e) r
only-AreReady l r names (suc i) k e = absurd (cc)

root_only : (name key : Bytes) (i : ℕ) → find_name name ((key, 0) ∷ []) ≡ some i → i < 1
root_only name key i h = elim (find_name-snoc name key 0 i [] h) [
  | inl e ↦ omega arith
  | inr e ↦ absurd (cc)
]

new_manager-IsSound : {m : LogState} → new_manager ≡ some m → IsSound m
unfolding new_manager
new_manager-IsSound e =
    let (l, el, r) = new_logger-IsReady (codes "root") none [] 0 tt in
    let (l', el', e') = bind-some (new_logger (codes "root") none) _ e in
    let same : l ≡ l' = some-injective _ _ (sym el ∙ el') in
    let s : LogState = record {
      appenders = [];
      loggers = l' ∷ [];
      names = (codes "root", 0) ∷ [];
    } in
    add_appender-IsSound 0 0 (create_appender stdout_sink s)
      (create_appender-IsSound stdout_sink s (record {
        are_ready = only-AreReady l' (subst (IsReady [] 0) same r) s.names;
        rooted = omega arith;
        named = λ name i h. root_only name (codes "root") i h;
      }))
      e'

module _ (strftime : Bytes → ℕ → Bytes) where
  perform-IsSound :
      (c : Call) (s : LogState) {t : LogState}
      → IsSound s
      → perform strftime c s ≡ some t
      → IsSound t
  unfolding perform Gives
  perform-IsSound (gets_logger name) s h e =
      let (r, er, sound, k) = get_logger-Gives name s h in
      subst IsSound (some-injective _ _ (ap got_state (sym er) ∙ e)) sound
  perform-IsSound (creates_appender k) s h e =
      subst IsSound (some-injective _ _ e) (create_appender-IsSound k s h)
  perform-IsSound (adds_appender i j) s h e = add_appender-IsSound i j s h e
  perform-IsSound (dels_appender i j) s h e = del_appender-IsSound i j s h e
  perform-IsSound (clears_appender i) s h e = clear_appender-IsSound i s h e
  perform-IsSound (sets_formatter i f) s h e = set_formatter-IsSound i f s h e
  perform-IsSound (sets_appender_formatter j f) s h e = set_appender_formatter-IsSound j f s h e
  perform-IsSound (sets_pattern i pattern) s h e = set_pattern-IsSound i pattern s h e
  perform-IsSound (sets_level i level) s h e = set_level-IsSound i level s h e
  perform-IsSound (sets_appender_level j level) s h e = set_appender_level-IsSound j level s h e
  perform-IsSound (logs i level event) s {t} h e =
      elim (Option-cases (log strftime (suc i) i level event s)) [
        | inl n ↦ let e' : none ≡ some t = rw n at e in absurd (cc)
        | inr (r, q) ↦
            subst IsSound (some-injective _ _ (ap logged_state (sym q) ∙ e))
              (Evolves-IsSound (log-Evolves strftime level event i s h.are_ready q) h)
      ]

  Reach-IsSound : (m s : LogState) → IsSound m → Reach strftime m s → IsSound s
  Reach-IsSound m s h start = h
  Reach-IsSound m s h (then_call {t} c r e) = perform-IsSound c t (Reach-IsSound m t h r) e

  -- After any calls on a new manager: `getLogger` of any name gives a logger, and its `log` of any
  -- event at any level comes to an end, and uses no null pointer.
  pub Reach-Logs :
      (m s : LogState) (name : Bytes) (level : Level) (event : LogEvent)
      → new_manager ≡ some m
      → Reach strftime m s
      → (r : ℕ × LogState) × (get_logger name s ≡ some r)
        × (o : Logged) × (log strftime (suc r.0) r.0 level event r.1 ≡ some o)
  unfolding Gives
  Reach-Logs m s name level event e reach =
      let (r, er, sound, k) =
        get_logger-Gives name s (Reach-IsSound m s (new_manager-IsSound e) reach) in
      let (o, eo, v) =
        log-LogsFrom strftime level event (suc r.0) r.0 r.1 sound.are_ready (omega arith) k in
      (r, er, o, eo)
