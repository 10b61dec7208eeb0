-- ===== src/Tree/Sets.antt =====
-- The laws of the sets of src/tree/data.js.
use tedi_sql_explorer.Base.{
  ◌≡◌, refl, sym, ◌∙◌, inl, inr, Bool, true, false, List, [], ◌∷◌, ◌++◌, Text, text_eq, text_eq→eq,
  text_eq_refl, Bool-cases, if◌then◌else◌,
}
use tedi_sql_explorer.Tree.Nodes.{has, add, delete, take_one}

pub has-append_same : (x : Text) (xs : List Text) → has x (xs ++ (x ∷ [])) ≡ true
unfolding has
has-append_same x [] = rw (text_eq_refl x) refl
has-append_same x (z ∷ xs) = elim (Bool-cases (text_eq x z)) [
  | inl e ↦ rw e refl
  | inr e ↦ rw e (has-append_same x xs)
]

pub has-append_ne :
    (x y : Text) (xs : List Text) → text_eq x y ≡ false → has x (xs ++ (y ∷ [])) ≡ has x xs
unfolding has
has-append_ne x y [] h = rw h refl
has-append_ne x y (z ∷ xs) h = elim (Bool-cases (text_eq x z)) [
  | inl e ↦ rw e refl
  | inr e ↦ rw e (has-append_ne x y xs h)
]

pub has-append : (x y : Text) (xs : List Text) → has x xs ≡ true → has x (xs ++ (y ∷ [])) ≡ true
has-append x y xs h = elim (Bool-cases (text_eq x y)) [
  | inl e ↦ rw (text_eq→eq x y e) (has-append_same y xs)
  | inr e ↦ has-append_ne x y xs e ∙ h
]

pub has-add_ne : (x y : Text) (xs : List Text) → text_eq x y ≡ false → has x (add y xs) ≡ has x xs
unfolding add
has-add_ne x y xs h = elim (Bool-cases (has y xs)) [
  | inl e ↦ rw e refl
  | inr e ↦ rw e (has-append_ne x y xs h)
]

pub has-delete : (x : Text) (xs : List Text) → has x (delete x xs) ≡ false
unfolding has delete
has-delete x [] = refl
has-delete x (z ∷ xs) = elim (Bool-cases (text_eq x z)) [
  | inl e ↦ rw e (has-delete x xs)
  | inr e ↦ rw (e, e) (has-delete x xs)
]

skip :
    (x y z : Text) (b c : Bool)
    → text_eq x y ≡ false
    → text_eq y z ≡ true
    → (if text_eq x z then b else c) ≡ c
skip x y z b c h e = rw (sym (text_eq→eq y z e), h) refl

pub has-delete_ne :
    (x y : Text) (xs : List Text) → text_eq x y ≡ false → has x (delete y xs) ≡ has x xs
unfolding has delete
has-delete_ne x y [] h = refl
has-delete_ne x y (z ∷ xs) h = elim (Bool-cases (text_eq y z)) [
  | inl e ↦ rw e (has-delete_ne x y xs h ∙ sym (skip x y z true (has x xs) h e))
  | inr e ↦ elim (Bool-cases (text_eq x z)) [
    | inl e' ↦ rw (e, e') refl
    | inr e' ↦ rw (e, e') (has-delete_ne x y xs h)
  ]
]

pub has-take_one_ne :
    (x y : Text) (xs : List Text) → text_eq x y ≡ false → has x (take_one y xs) ≡ has x xs
unfolding has take_one
has-take_one_ne x y [] h = refl
has-take_one_ne x y (z ∷ xs) h = elim (Bool-cases (text_eq y z)) [
  | inl e ↦ rw e (sym (skip x y z true (has x xs) h e))
  | inr e ↦ elim (Bool-cases (text_eq x z)) [
    | inl e' ↦ rw (e, e') refl
    | inr e' ↦ rw (e, e') (has-take_one_ne x y xs h)
  ]
]
