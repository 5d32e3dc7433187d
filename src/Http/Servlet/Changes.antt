-- ===== src/Http/Servlet/Changes.antt =====
-- The servlets of src/http/servlet.cc after any changes: which one takes a path.
use co_lib.Prelude.{
  List, [], ◌∷◌, ◌++◌, ◌≡◌, refl, sym, ◌∙◌, ap, subst, inl, inr, Option, some, none, Bool, true,
  false, ◌||◌, if◌then◌else◌, Bytes, bytes_eq, bytes_eq_refl, bytes_eq→eq, arith, Bool-cases,
}
use co_lib.Http.Servlet.{
  Servlet, not_found_servlet, Entries, ServletDispatch, new_dispatch, put_entry, entry_of,
  erase_key, add_servlet, add_glo_servlet, del_servlet, del_glo_servlet, set_default,
}

pub data Change : Type 0 where
  adds adds_glob : Bytes → Option Servlet → Change
  dels dels_glob : Bytes → Change
  sets_default : Option Servlet → Change

unfoldable pub change : Change → ServletDispatch → ServletDispatch
change (adds uri s) d = add_servlet uri s d
change (adds_glob uri s) d = add_glo_servlet uri s d
change (dels uri) d = del_servlet uri d
change (dels_glob uri) d = del_glo_servlet uri d
change (sets_default s) d = set_default s d

-- The dispatch after changes, the last of which comes first.
unfoldable pub after : List Change → ServletDispatch
after [] = new_dispatch
after (c ∷ h) = change c (after h)

-- The servlet of a path: that of the last change of it, unless this deletes it.
abbrev pub registered : Bytes → List Change → Option (Option Servlet)
registered uri [] = none
registered uri (adds k s ∷ h) = if bytes_eq k uri then some s else registered uri h
registered uri (dels k ∷ h) = if bytes_eq k uri then none else registered uri h
registered uri (adds_glob k s ∷ h) = registered uri h
registered uri (dels_glob k ∷ h) = registered uri h
registered uri (sets_default s ∷ h) = registered uri h

abbrev pub is_among : Bytes → List Bytes → Bool
is_among k [] = false
is_among k (u ∷ us) = bytes_eq u k || is_among k us

-- The patterns with their servlets, the oldest first, for which no later change of the same
-- pattern is in `h` or in `later`.
abbrev pub living : List Change → List Bytes → Entries
living [] later = []
living (adds_glob k s ∷ h) later =
    if is_among k later then living h later else living h (k ∷ later) ++ ((k, s) ∷ [])
living (dels_glob k ∷ h) later = living h (k ∷ later)
living (adds k s ∷ h) later = living h later
living (dels k ∷ h) later = living h later
living (sets_default s ∷ h) later = living h later

abbrev pub last_default : List Change → Option Servlet
last_default [] = some not_found_servlet
last_default (sets_default s ∷ h) = s
last_default (adds k s ∷ h) = last_default h
last_default (adds_glob k s ∷ h) = last_default h
last_default (dels k ∷ h) = last_default h
last_default (dels_glob k ∷ h) = last_default h

-- A key that differs from `j` differs from what equals `j`.
pub bytes_eq-differ :
    (j k u : Bytes) → bytes_eq j u ≡ true → bytes_eq j k ≡ false → bytes_eq k u ≡ false
bytes_eq-differ j k u p r = elim (Bool-cases (bytes_eq k u)) [
  | inr q ↦ q
  | inl q ↦
      let e : j ≡ k = bytes_eq→eq j u p ∙ sym (bytes_eq→eq k u q) in
      let t : bytes_eq j k ≡ true = subst (λ x. bytes_eq j x ≡ true) e (bytes_eq_refl j) in
      absurd (ground arith)
]

entry_of-put_entry :
    (uri k : Bytes) (s : Option Servlet) (m : Entries)
    → entry_of uri (put_entry k s m) ≡ (if bytes_eq k uri then some s else entry_of uri m)
unfolding entry_of put_entry
entry_of-put_entry uri k s [] = refl
entry_of-put_entry uri k s ((j, v) ∷ m) = elim (Bool-cases (bytes_eq j k)) [
  | inl e ↦
      let same : j ≡ k = bytes_eq→eq j k e in
      rw (e, same) (elim (Bool-cases (bytes_eq k uri)) [ inl q ↦ rw q refl | inr q ↦ rw q refl ])
  | inr e ↦ rw e (elim (Bool-cases (bytes_eq j uri)) [
    | inl q ↦ rw (q, bytes_eq-differ j k uri q e) refl
    | inr q ↦ rw q (entry_of-put_entry uri k s m)
  ])
]

entry_of-erase_key :
    (uri k : Bytes) (m : Entries)
    → entry_of uri (erase_key k m) ≡ (if bytes_eq k uri then none else entry_of uri m)
unfolding entry_of erase_key
entry_of-erase_key uri k [] = elim (Bool-cases (bytes_eq k uri)) [
  | inl q ↦ rw q refl
  | inr q ↦ rw q refl
]
entry_of-erase_key uri k ((j, v) ∷ m) = elim (Bool-cases (bytes_eq j k)) [
  | inl e ↦
      let same : j ≡ k = bytes_eq→eq j k e in
      rw (e, same)
        (elim (Bool-cases (bytes_eq k uri)) [
          | inl q ↦ rw q (entry_of-erase_key uri k m ∙ rw q refl)
          | inr q ↦ rw q (entry_of-erase_key uri k m ∙ rw q refl)
        ])
  | inr e ↦ rw e (elim (Bool-cases (bytes_eq j uri)) [
    | inl q ↦ rw (q, bytes_eq-differ j k uri q e) refl
    | inr q ↦ rw q (entry_of-erase_key uri k m)
  ])
]

-- The path of a servlet after any changes.
pub entry_of-after :
    (uri : Bytes) (h : List Change) → entry_of uri (after h).datas ≡ registered uri h
unfolding after change add_servlet add_glo_servlet del_servlet del_glo_servlet set_default entry_of
entry_of-after uri [] = refl
entry_of-after uri (adds k s ∷ h) =
    entry_of-put_entry uri k s (after h).datas
    ∙ ap (λ o. if bytes_eq k uri then some s else o) (entry_of-after uri h)
entry_of-after uri (dels k ∷ h) =
    entry_of-erase_key uri k (after h).datas
    ∙ ap (λ o. if bytes_eq k uri then none else o) (entry_of-after uri h)
entry_of-after uri (adds_glob k s ∷ h) = entry_of-after uri h
entry_of-after uri (dels_glob k ∷ h) = entry_of-after uri h
entry_of-after uri (sets_default s ∷ h) = entry_of-after uri h
