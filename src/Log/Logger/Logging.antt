-- ===== src/Log/Logger/Logging.antt =====
-- `Logger::log` of src/log.cc: with formatters everywhere, it ends and uses no null pointer.
use mathlib.Core.Option.{some-injective}
use co_lib.Prelude.{
  ℕ, zero, suc, ◌<◌, List, [], ◌∷◌, ◌++◌, ◌≡◌, refl, subst, inl, inr, Option, some, none, Bytes,
  get_elem?, length, get-some, get-lt, sym, ◌∙◌, arith, Bool-cases, Option-cases, List-cases,
}
use co_lib.Log.{Level, LogEvent}
use co_lib.Log.Formatter.{format_event}
use co_lib.Log.Logger.{
  Sink, Appender, LoggerData, LogState, Logged, write_to, appender_log, log_to_all, stdout_sink,
  file_sink, is_stale, at_least, log,
}
use co_lib.Log.Logger.Ready.{
  HasAppender, AllHave, AllHave-Keeps, IsReady, IsBelow, Evolves, Evolves-refl, Evolves-trans,
  put-Evolves,
}

-- The loggers can log, their roots are earlier loggers, and names are those of loggers.
abbrev pub AreReady : LogState → Type 0
AreReady s = (i : ℕ) (l : LoggerData) → get_elem? s.loggers i ≡ some l → IsReady s.appenders i l

abbrev pub LogsFrom : LogState → Option Logged → Type 0
LogsFrom s o = (r : Logged) × (o ≡ some r) × Evolves s r.0

module _ (strftime : Bytes → ℕ → Bytes) (level : Level) (event : LogEvent) where
  write_to-Evolves :
      (j : ℕ) (a : Appender) (k : Sink) (line : Bytes) (s : LogState)
      → get_elem? s.appenders j ≡ some a
      → Evolves s (write_to strftime j a k line event s).0
  write_to-Evolves j a stdout_sink line s e = Evolves-refl s
  write_to-Evolves j a (file_sink file last) line s e =
      elim (Bool-cases (is_stale last event.time)) [
        | inl h ↦
            rw h (put-Evolves s j a (record a { sink = file_sink file event.time }) e (λ f. f))
        | inr h ↦ rw h (Evolves-refl s)
      ]

  appender_log-LogsFrom :
      (j : ℕ) (s : LogState)
      → HasAppender s.appenders j
      → LogsFrom s (appender_log strftime j level event s)
  appender_log-LogsFrom j s (a, e, (f, ef)) = elim (Bool-cases (at_least level a.level)) [
    | inl h ↦
        let line = format_event strftime f level event in
        (
          write_to strftime j a a.sink line event s,
          rw (e, h, ef) refl,
          write_to-Evolves j a a.sink line s e,
        )
    | inr h ↦ ((s, []), rw (e, h) refl, Evolves-refl s)
  ]

  log_to_all-LogsFrom :
      (js : List ℕ) (s : LogState)
      → AllHave s.appenders js
      → LogsFrom s (log_to_all strftime js level event s)
  unfolding log_to_all
  log_to_all-LogsFrom [] s h = ((s, []), refl, Evolves-refl s)
  log_to_all-LogsFrom (j ∷ js) s h =
      let (r1, e1, v1) = appender_log-LogsFrom j s h.0 in
      let (r2, e2, v2) =
        log_to_all-LogsFrom js r1.0 (AllHave-Keeps s.appenders r1.0.appenders js v1.keeps h.1) in
      ((r2.0, r1.1 ++ r2.1), rw (e1, e2) refl, Evolves-trans v1 v2)

  pub log-LogsFrom :
      (fuel i : ℕ) (s : LogState)
      → AreReady s
      → i < fuel
      → i < length s.loggers
      → LogsFrom s (log strftime fuel i level event s)
  unfolding log
  log-LogsFrom zero i s ready h k = absurd (omega arith)
  log-LogsFrom (suc fuel) i s ready h k =
      let (l, e) = get-some s.loggers i k in
      let r = ready i l e in
      elim (Bool-cases (at_least level l.level)) [
        | inr q ↦ ((s, []), rw (e, q) refl, Evolves-refl s)
        | inl q ↦ elim (List-cases l.appenders) [
          | inr (j, js, ea) ↦
              rw (e, q, ea)
                (log_to_all-LogsFrom (j ∷ js) s (subst (AllHave s.appenders) ea r.all_have))
          | inl ea ↦ elim (Option-cases l.root) [
            | inl er ↦ ((s, []), rw (e, q, ea, er) refl, Evolves-refl s)
            | inr (p, er) ↦
                let below : p < i = subst (IsBelow i) er r.below in
                rw (e, q, ea, er) (log-LogsFrom fuel p s ready (omega arith) (omega arith))
          ]
        ]
      ]

  pub log-Evolves :
      (i : ℕ) (s : LogState) {r : Logged}
      → AreReady s
      → log strftime (suc i) i level event s ≡ some r
      → Evolves s r.0
  unfolding log
  log-Evolves i s {r} ready h = elim (Option-cases (get_elem? s.loggers i)) [
    | inl e ↦ let h' : none ≡ some r = rw e at h in absurd (cc)
    | inr (l, e) ↦
        let (o, eo, v) = log-LogsFrom (suc i) i s ready (omega arith) (get-lt s.loggers i l e) in
        subst (λ q. Evolves s q.0) (some-injective _ _ (sym eo ∙ h)) v
  ]
