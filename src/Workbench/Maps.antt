-- ===== src/Workbench/Maps.antt =====
-- The laws of the objects that the program uses as maps (src/runtime.js).
use tedi_sql_explorer.Base.{
  ◌≡◌, refl, sym, inl, inr, false, none, some, List, [], ◌∷◌, Text, text_eq, text_eq→eq,
  text_eq_refl, Bool-cases,
}
use tedi_sql_explorer.Workbench.{lookup, assign, discard}

module _ {ℓ} {A : Type ℓ} where
  pub lookup-assign :
      (key : Text) (a : A) (m : List (Text × A)) → lookup key (assign key a m) ≡ some a
  unfolding lookup assign
  lookup-assign key a [] = rw (text_eq_refl key)
  lookup-assign key a ((k, b) ∷ rest) = elim (Bool-cases (text_eq key k)) [
    | inl e ↦ rw (e, e)
    | inr e ↦ rw (e, e) (lookup-assign key a rest)
  ]

  pub lookup-assign_ne :
      (key other : Text) (a : A) (m : List (Text × A))
      → text_eq other key ≡ false
      → lookup other (assign key a m) ≡ lookup other m
  unfolding lookup assign
  lookup-assign_ne key other a [] h = rw h
  lookup-assign_ne key other a ((k, b) ∷ rest) h = elim (Bool-cases (text_eq key k)) [
    | inl e ↦ rw (e, sym (text_eq→eq key k e), h)
    | inr e ↦ elim (Bool-cases (text_eq other k)) [
      | inl e' ↦ rw (e, e')
      | inr e' ↦ rw (e, e') (lookup-assign_ne key other a rest h)
    ]
  ]

  pub lookup-discard : (key : Text) (m : List (Text × A)) → lookup key (discard key m) ≡ none
  unfolding lookup discard
  lookup-discard key [] = refl
  lookup-discard key ((k, b) ∷ rest) = elim (Bool-cases (text_eq key k)) [
    | inl e ↦ rw e (lookup-discard key rest)
    | inr e ↦ rw (e, e) (lookup-discard key rest)
  ]

  pub lookup-discard_ne :
      (key other : Text) (m : List (Text × A))
      → text_eq other key ≡ false
      → lookup other (discard key m) ≡ lookup other m
  unfolding lookup discard
  lookup-discard_ne key other [] h = refl
  lookup-discard_ne key other ((k, b) ∷ rest) h = elim (Bool-cases (text_eq key k)) [
    | inl e ↦ rw (e, sym (text_eq→eq key k e), h) (lookup-discard_ne key other rest h)
    | inr e ↦ elim (Bool-cases (text_eq other k)) [
      | inl e' ↦ rw (e, e')
      | inr e' ↦ rw (e, e') (lookup-discard_ne key other rest h)
    ]
  ]
