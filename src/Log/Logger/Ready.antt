-- ===== src/Log/Logger/Ready.antt =====
-- src/log.cc: loggers whose appenders all have a formatter.
use mathlib.Core.Option.{some-injective}
use co_lib.Prelude.{
  ℕ, ◌==◌, ==→eq, ==_false→ne, ◌<◌, List, [], ◌∷◌, ◌++◌, ◌≡◌, refl, sym, ◌∙◌, subst, ap, inl, inr,
  Option, some, none, get_elem?, set, get-append, get-set_same, get-set_other, Bool-cases,
}
use co_lib.Log.Formatter.{LogFormatter}
use co_lib.Log.Logger.{Appender, LoggerData, LogState, put_appender, erase_first}

abbrev pub HasFormatter : Appender → Type 0
HasFormatter a = (f : LogFormatter) × (a.formatter ≡ some f)

abbrev pub HasAppender : List Appender → ℕ → Type 0
HasAppender xs j = (a : Appender) × (get_elem? xs j ≡ some a) × HasFormatter a

abbrev pub AllHave : List Appender → List ℕ → Type 0
AllHave xs [] = Unit
AllHave xs (j ∷ js) = HasAppender xs j × AllHave xs js

-- The root is an earlier logger.
abbrev pub IsBelow : ℕ → Option ℕ → Type 0
IsBelow i none = Unit
IsBelow i (some r) = r < i

pub record IsReady (xs : List Appender) (i : ℕ) (l : LoggerData) : Type 0 where
  pub filled : (f : LogFormatter) × (l.formatter ≡ some f)
  pub all_have : AllHave xs l.appenders
  pub below : IsBelow i l.root

abbrev pub Keeps : List Appender → List Appender → Type 0
Keeps xs ys = (j : ℕ) → HasAppender xs j → HasAppender ys j

pub AllHave-Keeps :
    (xs ys : List Appender) (js : List ℕ) → Keeps xs ys → AllHave xs js → AllHave ys js
AllHave-Keeps xs ys [] k h = h
AllHave-Keeps xs ys (j ∷ js) k h = (k j h.0, AllHave-Keeps xs ys js k h.1)

pub IsReady-Keeps :
    {xs ys : List Appender} {i : ℕ} {l : LoggerData} → Keeps xs ys → IsReady xs i l → IsReady ys i l
IsReady-Keeps {xs} {ys} {i} {l} k h = record {
  filled = h.filled;
  all_have = AllHave-Keeps xs ys l.appenders k h.all_have;
  below = h.below;
}

-- A changed appender keeps its formatter, if it has one.
pub Keeps-set :
    (xs : List Appender) (j : ℕ) (a b : Appender)
    → get_elem? xs j ≡ some a
    → (HasFormatter a → HasFormatter b)
    → Keeps xs (set xs j b)
Keeps-set xs j a b e g k (c, ec, f) = elim (Bool-cases (j == k)) [
  | inl q ↦
      let p : j ≡ k = ==→eq j k q in
      let same : c ≡ a = some-injective _ _ (sym ec ∙ ap (λ i. get_elem? xs i) (sym p) ∙ e) in
      (
        b,
        subst (λ i. get_elem? (set xs j b) i ≡ some b) p (get-set_same xs j a b e),
        g (subst HasFormatter same f),
      )
  | inr q ↦ (c, get-set_other xs j k b (==_false→ne j k q) ∙ ec, f)
]

pub Keeps-append : (xs ys : List Appender) → Keeps xs (xs ++ ys)
Keeps-append xs ys j (a, e, f) = (a, get-append xs ys j a e, f)

pub AllHave-erase :
    (xs : List Appender) (j : ℕ) (js : List ℕ) → AllHave xs js → AllHave xs (erase_first j js)
AllHave-erase xs j [] h = h
AllHave-erase xs j (k ∷ ks) h = elim (Bool-cases (k == j)) [
  | inl e ↦ rw e h.1
  | inr e ↦ rw e (h.0, AllHave-erase xs j ks h.1)
]

pub AllHave-snoc :
    (xs : List Appender) (js : List ℕ) (j : ℕ)
    → AllHave xs js
    → HasAppender xs j
    → AllHave xs (js ++ (j ∷ []))
AllHave-snoc xs [] j h k = (k, tt)
AllHave-snoc xs (i ∷ js) j h k = (h.0, AllHave-snoc xs js j h.1 k)

-- `t` has the loggers of `s`, and appenders that have had a formatter have one still.
pub record Evolves (s t : LogState) : Type 0 where
  pub keeps : Keeps s.appenders t.appenders
  pub same_loggers : t.loggers ≡ s.loggers
  pub same_names : t.names ≡ s.names

pub Evolves-refl : (s : LogState) → Evolves s s
Evolves-refl s = record { keeps = λ j h. h; same_loggers = refl; same_names = refl }

pub Evolves-trans : {s t u : LogState} → Evolves s t → Evolves t u → Evolves s u
Evolves-trans p q = record {
  keeps = λ j h. q.keeps j (p.keeps j h);
  same_loggers = q.same_loggers ∙ p.same_loggers;
  same_names = q.same_names ∙ p.same_names;
}

pub put-Evolves :
    (s : LogState) (j : ℕ) (a b : Appender)
    → get_elem? s.appenders j ≡ some a
    → (HasFormatter a → HasFormatter b)
    → Evolves s (put_appender j b s)
put-Evolves s j a b e g = record {
  keeps = Keeps-set s.appenders j a b e g;
  same_loggers = refl;
  same_names = refl;
}
