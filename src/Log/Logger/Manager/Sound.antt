-- ===== src/Log/Logger/Manager/Sound.antt =====
-- src/log.cc: the calls on loggers, appenders and the manager keep every logger able to log.
use mathlib.Core.Option.{some-injective}
use co_lib.Prelude.{
  ℕ, ◌<◌, List, [], ◌∷◌, ◌≡◌, refl, sym, ◌∙◌, ap, subst, inl, inr, some, Bytes, get_elem?, length,
  get-set_cases, length-set, Bool-cases, Option-cases, bind-some,
}
use co_lib.Log.{Level}
use co_lib.Log.Formatter.{LogFormatter, new_formatter}
use co_lib.Log.Logger.{
  Sink, Appender, LoggerData, LogState, put_appender, put_logger, with_formatter, lend_formatter,
  pass_formatter, pass_to_all, erase_first, set_appender_formatter, del_appender, clear_appender,
  set_formatter, set_pattern, set_level, set_appender_level,
}
use co_lib.Log.Logger.Ready.{
  HasFormatter, AllHave-erase, IsReady, IsReady-Keeps, Keeps-append, Evolves, Evolves-refl,
  Evolves-trans, put-Evolves,
}
use co_lib.Log.Logger.Logging.{AreReady}
use co_lib.Log.Logger.Manager.{find_name, create_appender}

-- Every logger can log, there is a root, and `m_loggers` holds loggers.
pub record IsSound (s : LogState) : Type 0 where
  pub are_ready : AreReady s
  pub rooted : 0 < length s.loggers
  pub named : (name : Bytes) (i : ℕ) → find_name name s.names ≡ some i → i < length s.loggers

pub Evolves-IsSound : {s t : LogState} → Evolves s t → IsSound s → IsSound t
Evolves-IsSound {s} {t} v h = record {
  are_ready = λ i l e.
      IsReady-Keeps v.keeps (h.are_ready i l (ap (λ ls. get_elem? ls i) (sym v.same_loggers) ∙ e));
  rooted = subst (λ ls. 0 < length ls) (sym v.same_loggers) h.rooted;
  named = λ name i e.
      subst (λ ls. i < length ls) (sym v.same_loggers)
        (h.named name i (ap (find_name name) (sym v.same_names) ∙ e));
}

-- A logger is put in the place of one, and can log.
pub put_logger-IsSound :
    (i : ℕ) (l : LoggerData) (s : LogState)
    → IsReady s.appenders i l
    → IsSound s
    → IsSound (put_logger i l s)
put_logger-IsSound i l s r h = record {
  are_ready = λ j k e. elim (get-set_cases s.loggers i j l k e) [
    | inl (p, q) ↦ subst (λ n. IsReady s.appenders n k) p (subst (IsReady s.appenders i) q r)
    | inr e' ↦ h.are_ready j k e'
  ];
  rooted = rw (length-set s.loggers i l) h.rooted;
  named = λ name j e. rw (length-set s.loggers i l) (h.named name j e);
}

with_formatter-HasFormatter :
    (f : LogFormatter) (a : Appender) → HasFormatter (with_formatter (some f) a)
with_formatter-HasFormatter f a = (f, refl)

pub lend_formatter-HasFormatter :
    (f : LogFormatter) (a : Appender) → HasFormatter (lend_formatter (some f) a)
lend_formatter-HasFormatter f a = elim (Option-cases a.formatter) [
  | inl e ↦ rw e (f, refl)
  | inr (g, e) ↦ rw e (g, refl)
]

pass_formatter-HasFormatter :
    (f : LogFormatter) (a : Appender) → HasFormatter a → HasFormatter (pass_formatter (some f) a)
pass_formatter-HasFormatter f a h = elim (Bool-cases a.has_formatter) [
  | inl e ↦ rw e h
  | inr e ↦ rw e (f, refl)
]

pass_to_all-Evolves :
    (f : LogFormatter) (js : List ℕ) (s : LogState) {t : LogState}
    → pass_to_all (some f) js s ≡ some t
    → Evolves s t
unfolding pass_to_all
pass_to_all-Evolves f [] s e = subst (Evolves s) (some-injective _ _ e) (Evolves-refl s)
pass_to_all-Evolves f (j ∷ js) s e =
    let (a, ea, e') = bind-some (get_elem? s.appenders j) _ e in
    Evolves-trans
      (put-Evolves s j a (pass_formatter (some f) a) ea (pass_formatter-HasFormatter f a))
      (pass_to_all-Evolves f js (put_appender j (pass_formatter (some f) a) s) e')

pub set_appender_formatter-IsSound :
    (j : ℕ) (f : LogFormatter) (s : LogState) {t : LogState}
    → IsSound s
    → set_appender_formatter j (some f) s ≡ some t
    → IsSound t
unfolding set_appender_formatter
set_appender_formatter-IsSound j f s h e =
    let (a, ea, e') = bind-some (get_elem? s.appenders j) _ e in
    subst IsSound (some-injective _ _ e') (
      Evolves-IsSound
        (put-Evolves s j a (with_formatter (some f) a) ea (λ k. with_formatter-HasFormatter f a)) h)

pub set_appender_level-IsSound :
    (j : ℕ) (level : Level) (s : LogState) {t : LogState}
    → IsSound s
    → set_appender_level j level s ≡ some t
    → IsSound t
unfolding set_appender_level
set_appender_level-IsSound j level s h e =
    let (a, ea, e') = bind-some (get_elem? s.appenders j) _ e in
    subst IsSound (some-injective _ _ e')
      (Evolves-IsSound (put-Evolves s j a (record a { level = level }) ea (λ k. k)) h)

-- Any change of a logger that leaves it able to log.
pub change-IsSound :
    (i : ℕ) (l l' : LoggerData) (s : LogState)
    → IsSound s
    → get_elem? s.loggers i ≡ some l
    → (IsReady s.appenders i l → IsReady s.appenders i l')
    → IsSound (put_logger i l' s)
change-IsSound i l l' s h e g = put_logger-IsSound i l' s (g (h.are_ready i l e)) h

pub set_level-IsSound :
    (i : ℕ) (level : Level) (s : LogState) {t : LogState}
    → IsSound s
    → set_level i level s ≡ some t
    → IsSound t
unfolding set_level
set_level-IsSound i level s h e =
    let (l, el, e') = bind-some (get_elem? s.loggers i) _ e in
    subst IsSound (some-injective _ _ e') (
      change-IsSound i l (record l { level = level }) s h el
        (λ r. record { filled = r.filled; all_have = r.all_have; below = r.below }))

pub clear_appender-IsSound :
    (i : ℕ) (s : LogState) {t : LogState} → IsSound s → clear_appender i s ≡ some t → IsSound t
unfolding clear_appender
clear_appender-IsSound i s h e =
    let (l, el, e') = bind-some (get_elem? s.loggers i) _ e in
    subst IsSound (some-injective _ _ e') (
      change-IsSound i l (record l { appenders = [] }) s h el
        (λ r. record { filled = r.filled; all_have = tt; below = r.below }))

pub del_appender-IsSound :
    (i j : ℕ) (s : LogState) {t : LogState} → IsSound s → del_appender i j s ≡ some t → IsSound t
unfolding del_appender
del_appender-IsSound i j s h e =
    let (l, el, e') = bind-some (get_elem? s.loggers i) _ e in
    subst IsSound (some-injective _ _ e') (
      change-IsSound i l (record l { appenders = erase_first j l.appenders }) s h el
        (λ r. record {
          filled = r.filled;
          all_have = AllHave-erase s.appenders j l.appenders r.all_have;
          below = r.below;
        }))

pub set_formatter-IsSound :
    (i : ℕ) (f : LogFormatter) (s : LogState) {t : LogState}
    → IsSound s
    → set_formatter i (some f) s ≡ some t
    → IsSound t
unfolding set_formatter
set_formatter-IsSound i f s h e =
    let (l, el, e') = bind-some (get_elem? s.loggers i) _ e in
    Evolves-IsSound
      (pass_to_all-Evolves f l.appenders (put_logger i (record l { formatter = some f }) s) e')
      (change-IsSound i l (record l { formatter = some f }) s h el
        (λ r. record { filled = (f, refl); all_have = r.all_have; below = r.below }))

pub set_pattern-IsSound :
    (i : ℕ) (pattern : Bytes) (s : LogState) {t : LogState}
    → IsSound s
    → set_pattern i pattern s ≡ some t
    → IsSound t
unfolding set_pattern
set_pattern-IsSound i pattern s h e =
    let (f, ef, e') = bind-some (new_formatter pattern) _ e in set_formatter-IsSound i f s h e'

pub create_appender-IsSound : (k : Sink) (s : LogState) → IsSound s → IsSound (create_appender k s)
unfolding create_appender
create_appender-IsSound k s h =
    Evolves-IsSound
      (record { keeps = Keeps-append s.appenders _; same_loggers = refl; same_names = refl }) h
