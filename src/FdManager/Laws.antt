-- ===== src/FdManager/Laws.antt =====
-- The table of src/fd_manager.cc as a map from descriptors to contexts.
use co_lib.Prelude.{
  ℕ, zero, suc, ◌*◌, ◌/◌, ◌≡◌, ◌⊎◌, ◌≤◌, ◌<◌, ◌^◌, as_int_small, leb_int, refl, sym, ◌∙◌, ap, inl,
  inr, ℤ, [], ◌∷◌, Option, some, none, Bool, true, false, leb, leb→le, not, ◌||◌, ◌==◌,
  if◌then◌else◌, length, get_elem?, set, arith, Bool-cases, length-set,
}
use co_lib.FdManager.{
  Sys, FdCtx, Datas, new_ctx, create, resize, is_beyond, grown, store, slot, has_slot, create_ctx,
  get, del,
}

abbrev pub context : ℕ → Datas → Option FdCtx
context fd d = slot (get_elem? d fd)

-- The table never has fewer than the 64 slots that it begins with, and its size is an `int`.
abbrev pub IsValid : Datas → Type 0
IsValid d = (64 ≤ length d) × (length d < 2 ^ 31)

pub create-IsValid : IsValid create
unfolding create
create-IsValid = (omega arith, omega arith)

length-resize : (n : ℕ) (d : Datas) → length (resize n d) ≡ n
length-resize zero d = refl
length-resize (suc n) [] = ap suc (length-resize n [])
length-resize (suc n) (c ∷ d) = ap suc (length-resize n d)

context-resize_nil : (n j : ℕ) → context j (resize n []) ≡ none
context-resize_nil zero j = refl
context-resize_nil (suc n) zero = refl
context-resize_nil (suc n) (suc j) = context-resize_nil n j

-- A table that grows keeps its contexts, and its new slots are empty.
context-resize : (n j : ℕ) (d : Datas) → length d ≤ n → context j (resize n d) ≡ context j d
context-resize n j [] h = context-resize_nil n j
context-resize zero j (c ∷ d) h = absurd (omega arith)
context-resize (suc n) zero (c ∷ d) h = refl
context-resize (suc n) (suc j) (c ∷ d) h = context-resize n j d (omega arith)

context-set :
    (fd j : ℕ) (c : Option FdCtx) (d : Datas)
    → fd < length d
    → context j (set d fd c) ≡ (if fd == j then slot (some c) else context j d)
context-set fd j c [] h = absurd (omega arith)
context-set zero zero c (x ∷ d) h = refl
context-set zero (suc j) c (x ∷ d) h = ground arith
context-set (suc fd) zero c (x ∷ d) h = ground arith
context-set (suc fd) (suc j) c (x ∷ d) h = context-set fd j c d (omega arith) ∙ ground arith

elem-out : (j : ℕ) (d : Datas) → length d ≤ j → get_elem? d j ≡ none
elem-out j [] h = refl
elem-out zero (c ∷ d) h = absurd (omega arith)
elem-out (suc j) (c ∷ d) h = elem-out j d (omega arith)

context-out : (j : ℕ) (d : Datas) → length d ≤ j → context j d ≡ none
context-out j d h = ap slot (elem-out j d h)

Slot-cases :
    (x : Option (Option FdCtx))
    → ((slot x ≡ none) × (has_slot x ≡ false))
      ⊎ ((c : FdCtx) × (slot x ≡ some c) × (has_slot x ≡ true))
Slot-cases none = inl (refl, refl)
Slot-cases (some none) = inl (refl, refl)
Slot-cases (some (some c)) = inr (c, refl, refl)

abbrev pub found_or : FdCtx → Option FdCtx → FdCtx
found_or c none = c
found_or c (some c') = c'

module _ (fd : ℕ) (d : Datas) (v : IsValid d) where
  is_beyond_lem : is_beyond (ℤ.pos fd) d ≡ leb (length d) fd
  is_beyond_lem = ap (λ n. leb_int n (ℤ.pos fd)) (as_int_small (length d) v.1)

  grown_room : (fd < length (grown fd d)) × (length d ≤ length (grown fd d))
  grown_room = rw is_beyond_lem (ground (arith, v, length-resize (fd * 3 / 2) d))

  context-grown : (j : ℕ) → context j (grown fd d) ≡ context j d
  context-grown j = elim (Bool-cases (leb (length d) fd)) [
    | inl e ↦ rw (is_beyond_lem, e) (context-resize (fd * 3 / 2) j d (ground arith))
    | inr e ↦ rw (is_beyond_lem, e)
  ]

  grown_int : fd * 3 / 2 < 2 ^ 31 → length (grown fd d) < 2 ^ 31
  grown_int small = rw is_beyond_lem (ground (arith, v, small, length-resize (fd * 3 / 2) d))

  -- On a valid table the two tests of `get` are one: a slot beyond the table is an empty one.
  pub get_lem :
      (sys : Sys) (auto_create : Bool)
      → get sys (ℤ.pos fd) auto_create d ≡ (
          if has_slot (get_elem? d fd) || not auto_create
          then some (context fd d, d)
          else create_ctx sys fd d)
  unfolding get
  get_lem sys auto_create = elim (Bool-cases (leb (length d) fd)) [
    | inl e ↦
        let out : get_elem? d fd ≡ none = elem-out fd d (leb→le (length d) fd e) in
        rw (is_beyond_lem, e, out) (elim auto_create [ true ↦ refl | false ↦ refl ])
    | inr e ↦ rw (is_beyond_lem, e) refl
  ]

  store_lem : (c : FdCtx) → store fd c (grown fd d) ≡ some (set (grown fd d) fd (some c))
  store_lem c = ground (arith, grown_room)

  -- `get` with `auto_create` of a valid table, for a descriptor that the table can grow to while its
  -- size is an `int`, returns a context: the one that the descriptor has, or a new one; afterwards the descriptor has that context, all others are as before, and the table
  -- is valid.
  pub get-context :
      (sys : Sys)
      → fd * 3 / 2 < 2 ^ 31
      → let c = found_or (new_ctx sys fd).0 (context fd d) in
        (d' : Datas) × (get sys (ℤ.pos fd) true d ≡ some (some c, d'))
        × ((j : ℕ) → context j d' ≡ (if fd == j then some c else context j d))
        × IsValid d'
  unfolding create_ctx
  get-context sys small = elim (Slot-cases (get_elem? d fd)) [
    | inl (empty, no_slot) ↦ (
      set (grown fd d) fd (some (new_ctx sys fd).0),
      get_lem sys true ∙ rw (no_slot, empty, create_ctx, store_lem (new_ctx sys fd).0) refl,
      (λ j.
          context-set fd j (some (new_ctx sys fd).0) (grown fd d) grown_room.0
          ∙ rw (empty, context-grown j)),
      (
        omega (arith, v, grown_room, length-set (grown fd d) fd (some (new_ctx sys fd).0)),
        omega (arith, grown_int small, length-set (grown fd d) fd (some (new_ctx sys fd).0)),
      ),
    )
    | inr (c, has, is_slot) ↦ (
      d,
      get_lem sys true ∙ rw (is_slot, has) refl,
      (λ j. rw has (elim (Bool-cases (fd == j)) [
        | inl e ↦ let e' : fd ≡ j = ground arith in rw e (ap (λ k. context k d) (sym e') ∙ has)
        | inr e ↦ rw e
      ])),
      v,
    )
  ]

  -- Without `auto_create`, `get` returns what the descriptor has, if anything, and changes nothing.
  pub get-lookup : (sys : Sys) → get sys (ℤ.pos fd) false d ≡ some (context fd d, d)
  get-lookup sys = get_lem sys false ∙ ground arith

  -- A descriptor that has a context gets that one, with either setting of `auto_create`.
  pub get-context_found :
      (sys : Sys) (auto_create : Bool) (c : FdCtx)
      → context fd d ≡ some c
      → get sys (ℤ.pos fd) auto_create d ≡ some (some c, d)
  get-context_found sys auto_create c h = elim (Slot-cases (get_elem? d fd)) [
    | inl (empty, no_slot) ↦ absurd (ground arith)
    | inr (c', has, is_slot) ↦ get_lem sys auto_create ∙ rw (is_slot, h) refl
  ]

  -- `del` takes the context of one descriptor of a valid table away: it leaves all other contexts
  -- alone and the table valid.
  pub del-context :
      (d' : Datas) × (del (ℤ.pos fd) d ≡ some d')
      × ((j : ℕ) → context j d' ≡ (if fd == j then none else context j d))
      × IsValid d'
  unfolding del
  del-context = elim (Bool-cases (leb (length d) fd)) [
    | inl e ↦ (
      d,
      rw (is_beyond_lem, e),
      (λ j. elim (Bool-cases (fd == j)) [
        | inl e' ↦ let out : context j d ≡ none = context-out j d (ground arith) in rw (e', out)
        | inr e' ↦ rw e'
      ]),
      v,
    )
    | inr e ↦ (
      set d fd none,
      rw (is_beyond_lem, e),
      (λ j. context-set fd j none d (ground arith)),
      (omega (arith, v, length-set d fd none), omega (arith, v, length-set d fd none)),
    )
  ]
