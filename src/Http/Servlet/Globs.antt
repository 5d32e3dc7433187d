-- ===== src/Http/Servlet/Globs.antt =====
-- `m_globs` of src/http/servlet.cc after any changes, and the servlet that takes a path.
use co_lib.Prelude.{
  List, [], ◌∷◌, ◌++◌, ◌≡◌, refl, sym, ◌∙◌, ap, subst, inl, inr, Option, Bool, true, false, not,
  ◌&&◌, ◌||◌, Bytes, bytes_eq, bytes_eq_refl, bytes_eq→eq, arith, Bool-cases, pos,
}
use co_lib.Http.Servlet.{
  Servlet, Entries, Handled, erase_entry, erase_key, add_servlet, add_glo_servlet, del_servlet,
  del_glo_servlet, set_default, first_match, or_else, get_matched_servlet, handle_if, handle,
}
use co_lib.Http.Servlet.Changes.{
  Change, adds, adds_glob, dels, dels_glob, sets_default, change, after, registered, is_among,
  living, last_default, entry_of-after, bytes_eq-differ,
}

abbrev has_key : Bytes → Entries → Bool
has_key u [] = false
has_key u ((k, v) ∷ m) = bytes_eq k u || has_key u m

-- No key comes twice.
abbrev is_unique : Entries → Bool
is_unique [] = true
is_unique ((k, v) ∷ m) = not (has_key k m) && is_unique m

erase_key-absent : (u : Bytes) (m : Entries) → has_key u m ≡ false → erase_key u m ≡ m
unfolding erase_key
erase_key-absent u [] h = refl
erase_key-absent u ((k, v) ∷ m) h =
    let e : bytes_eq k u ≡ false = ground arith in
    rw e (ap (λ r. (k, v) ∷ r) (erase_key-absent u m (ground arith)))

erase_entry-erase_key :
    (u : Bytes) (m : Entries) → is_unique m ≡ true → erase_entry u m ≡ erase_key u m
unfolding erase_entry erase_key
erase_entry-erase_key u [] h = refl
erase_entry-erase_key u ((k, v) ∷ m) h = elim (Bool-cases (bytes_eq k u)) [
  | inl e ↦
      let fresh : has_key k m ≡ false = ground arith in
      rw e (sym (erase_key-absent u m (subst (λ x. has_key x m ≡ false) (bytes_eq→eq k u e) fresh)))
  | inr e ↦ rw e (ap (λ r. (k, v) ∷ r) (erase_entry-erase_key u m (ground arith)))
]

has_key-erase_key : (u : Bytes) (m : Entries) → has_key u (erase_key u m) ≡ false
unfolding erase_key
has_key-erase_key u [] = refl
has_key-erase_key u ((k, v) ∷ m) = elim (Bool-cases (bytes_eq k u)) [
  | inl e ↦ rw e (has_key-erase_key u m)
  | inr e ↦ rw (e, e) (has_key-erase_key u m)
]

has_key-erase_key_other :
    (u k : Bytes) (m : Entries) → has_key k m ≡ false → has_key k (erase_key u m) ≡ false
unfolding erase_key
has_key-erase_key_other u k [] h = refl
has_key-erase_key_other u k ((j, v) ∷ m) h =
    let other : bytes_eq j k ≡ false = ground arith in
    let rest = has_key-erase_key_other u k m (ground arith) in
    elim (Bool-cases (bytes_eq j u)) [ inl e ↦ rw e rest | inr e ↦ rw (e, other) rest ]

is_unique-erase_key :
    (u : Bytes) (m : Entries) → is_unique m ≡ true → is_unique (erase_key u m) ≡ true
unfolding erase_key
is_unique-erase_key u [] h = refl
is_unique-erase_key u ((k, v) ∷ m) h =
    let rest = is_unique-erase_key u m (ground arith) in
    let fresh = has_key-erase_key_other u k m (ground arith) in
    elim (Bool-cases (bytes_eq k u)) [ inl e ↦ rw e rest | inr e ↦ rw (e, fresh) rest ]

has_key-snoc :
    (k u : Bytes) (s : Option Servlet) (m : Entries)
    → has_key k (m ++ ((u, s) ∷ [])) ≡ (has_key k m || bytes_eq u k)
has_key-snoc k u s [] = elim (Bool-cases (bytes_eq u k)) [ inl e ↦ rw e refl | inr e ↦ rw e refl ]
has_key-snoc k u s ((j, v) ∷ m) = elim (Bool-cases (bytes_eq j k)) [
  | inl e ↦ rw e refl
  | inr e ↦ rw e (has_key-snoc k u s m)
]

bytes_eq-flip : (u k : Bytes) → bytes_eq u k ≡ false → bytes_eq k u ≡ false
bytes_eq-flip u k h = bytes_eq-differ u k u (bytes_eq_refl u) h

is_unique-snoc :
    (u : Bytes) (s : Option Servlet) (m : Entries)
    → is_unique m ≡ true
    → has_key u m ≡ false
    → is_unique (m ++ ((u, s) ∷ [])) ≡ true
is_unique-snoc u s [] h k = refl
is_unique-snoc u s ((j, v) ∷ m) h k =
    let fresh : has_key j m ≡ false = ground arith in
    let other : bytes_eq j u ≡ false = ground arith in
    let other' : bytes_eq u j ≡ false = bytes_eq-flip j u other in
    rw (has_key-snoc j u s m, fresh, other') (is_unique-snoc u s m (ground arith) (ground arith))

erase_key-snoc_same :
    (u : Bytes) (s : Option Servlet) (m : Entries)
    → erase_key u (m ++ ((u, s) ∷ [])) ≡ erase_key u m
unfolding erase_key
erase_key-snoc_same u s [] = rw (bytes_eq_refl u) refl
erase_key-snoc_same u s ((j, v) ∷ m) = elim (Bool-cases (bytes_eq j u)) [
  | inl e ↦ rw e (erase_key-snoc_same u s m)
  | inr e ↦ rw e (ap (λ r. (j, v) ∷ r) (erase_key-snoc_same u s m))
]

erase_key-snoc_other :
    (u k : Bytes) (s : Option Servlet) (m : Entries)
    → bytes_eq k u ≡ false
    → erase_key u (m ++ ((k, s) ∷ [])) ≡ erase_key u m ++ ((k, s) ∷ [])
unfolding erase_key
erase_key-snoc_other u k s [] h = rw h refl
erase_key-snoc_other u k s ((j, v) ∷ m) h = elim (Bool-cases (bytes_eq j u)) [
  | inl e ↦ rw e (erase_key-snoc_other u k s m h)
  | inr e ↦ rw e (ap (λ r. (j, v) ∷ r) (erase_key-snoc_other u k s m h))
]

erase_key_comm :
    (u k : Bytes) (m : Entries) → erase_key u (erase_key k m) ≡ erase_key k (erase_key u m)
unfolding erase_key
erase_key_comm u k [] = refl
erase_key_comm u k ((j, v) ∷ m) = elim (Bool-cases (bytes_eq j u)) [
  | inl e ↦ elim (Bool-cases (bytes_eq j k)) [
    | inl q ↦ rw (e, q) (erase_key_comm u k m)
    | inr q ↦ rw (q, e) (erase_key_comm u k m)
  ]
  | inr e ↦ elim (Bool-cases (bytes_eq j k)) [
    | inl q ↦ rw (e, q) (erase_key_comm u k m)
    | inr q ↦ rw (e, q) (rw e (ap (λ r. (j, v) ∷ r) (erase_key_comm u k m)))
  ]
]

erase_key-twice : (u : Bytes) (m : Entries) → erase_key u (erase_key u m) ≡ erase_key u m
erase_key-twice u m = erase_key-absent u (erase_key u m) (has_key-erase_key u m)

-- A later change of a pattern takes its entry away.
living-erase_key :
    (h : List Change) (u : Bytes) (later : List Bytes)
    → living h (u ∷ later) ≡ erase_key u (living h later)
unfolding erase_key
living-erase_key [] u later = refl
living-erase_key (adds k s ∷ h) u later = living-erase_key h u later
living-erase_key (dels k ∷ h) u later = living-erase_key h u later
living-erase_key (sets_default s ∷ h) u later = living-erase_key h u later
living-erase_key (dels_glob k ∷ h) u later =
    living-erase_key h k (u ∷ later)
    ∙ ap (erase_key k) (living-erase_key h u later)
    ∙ erase_key_comm k u (living h later)
    ∙ ap (erase_key u) (sym (living-erase_key h k later))
living-erase_key (adds_glob k s ∷ h) u later = elim (Bool-cases (is_among k later)) [
  | inl e ↦ elim (Bool-cases (bytes_eq u k)) [
    | inl q ↦ rw (e, q) (living-erase_key h u later)
    | inr q ↦ rw (e, q) (living-erase_key h u later)
  ]
  | inr e ↦ elim (Bool-cases (bytes_eq u k)) [
    | inl q ↦
        let same : u ≡ k = bytes_eq→eq u k q in
        rw (e, q)
          (living-erase_key h u later
            ∙ sym (erase_key-twice u (living h later))
            ∙ ap (erase_key u) (sym (living-erase_key h u later))
            ∙ sym (erase_key-snoc_same u s (living h (u ∷ later)))
            ∙ ap (λ x. erase_key u (living h (x ∷ later) ++ ((x, s) ∷ []))) same)
    | inr q ↦
        rw (e, q)
          (ap (λ m. m ++ ((k, s) ∷ []))
              (living-erase_key h k (u ∷ later)
                ∙ ap (erase_key k) (living-erase_key h u later)
                ∙ erase_key_comm k u (living h later)
                ∙ ap (erase_key u) (sym (living-erase_key h k later)))
            ∙ sym (erase_key-snoc_other u k s (living h (k ∷ later)) (bytes_eq-flip u k q)))
  ]
]

-- `m_globs` has the living patterns, each once, the oldest first.
globs-after :
    (h : List Change) → ((after h).globs ≡ living h []) × (is_unique (after h).globs ≡ true)
unfolding after change add_servlet add_glo_servlet del_servlet del_glo_servlet set_default
globs-after [] = (refl, refl)
globs-after (adds k s ∷ h) = globs-after h
globs-after (dels k ∷ h) = globs-after h
globs-after (sets_default s ∷ h) = globs-after h
globs-after (dels_glob k ∷ h) =
    let (e, unique) = globs-after h in
    let erased = erase_entry-erase_key k (after h).globs unique in
    (
      erased ∙ ap (erase_key k) e ∙ sym (living-erase_key h k []),
      ap is_unique erased ∙ is_unique-erase_key k (after h).globs unique,
    )
globs-after (adds_glob k s ∷ h) =
    let (e, unique) = globs-after h in
    let erased = erase_entry-erase_key k (after h).globs unique in
    (
      ap (λ m. m ++ ((k, s) ∷ [])) (erased ∙ ap (erase_key k) e ∙ sym (living-erase_key h k [])),
      ap (λ m. is_unique (m ++ ((k, s) ∷ []))) erased
          ∙ is_unique-snoc k s (erase_key k (after h).globs)
              (is_unique-erase_key k (after h).globs unique) (has_key-erase_key k (after h).globs),
    )

default-after : (h : List Change) → (after h).default ≡ last_default h
unfolding after change add_servlet add_glo_servlet del_servlet del_glo_servlet set_default
default-after [] = refl
default-after (adds k s ∷ h) = default-after h
default-after (adds_glob k s ∷ h) = default-after h
default-after (dels k ∷ h) = default-after h
default-after (dels_glob k ∷ h) = default-after h
default-after (sets_default s ∷ h) = refl

-- After any changes, a request is handled by the servlet that was last registered for its path; else by that of
-- the first pattern that matches, in the order of their last registrations, of those that were not deleted since;
-- else by the default that was last set, at first the servlet that answers 404. The result is 0.
pub handle-after :
    (fnmatch : Bytes → Bytes → Bool) (h : List Change) (x : Handled)
    → handle fnmatch (after h) x ≡ (
      handle_if
          (or_else
            (registered x.0.path h)
            (or_else (first_match fnmatch x.0.path (living h [])) (last_default h)))
          x,
      pos 0,
    )
unfolding handle get_matched_servlet
handle-after fnmatch h x = rw (entry_of-after x.0.path h, (globs-after h).0, default-after h) refl
