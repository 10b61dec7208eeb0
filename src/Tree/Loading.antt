-- ===== src/Tree/Loading.antt =====
-- What is true of the lazy tree after any sequence of clicks, answers and reloads (src/tree/view.js).
use mathlib.Core.Bool.{false≢true}
use tedi_sql_explorer.Base.{
  ◌≡◌, refl, sym, ap, ◌∙◌, inl, inr, ◌⊎◌, Bool, true, false, Option, none, some, List, [], ◌∷◌,
  ◌++◌, Text, text_eq, text_eq→eq, Bool-cases, if◌then◌else◌, is_some,
}
use tedi_sql_explorer.Workbench.{lookup, assign, discard}
use tedi_sql_explorer.Workbench.Maps.{lookup-assign, lookup-assign_ne, lookup-discard_ne}
use tedi_sql_explorer.Tree.Nodes.{
  Child, Tree, has, add, delete, take_one, begun, expand, toggle, settle, reload_tree, refresh_node,
  Step, toggled, settled, reloaded, refreshed, Reached, start, then_step,
}
use tedi_sql_explorer.Tree.Sets.{
  has-append, has-append_same, has-add_ne, has-delete, has-delete_ne, has-take_one_ne,
}

-- A node has its children, or a load of them is in flight.
abbrev pub Served : Text → Tree → Type 0
Served id t = (is_some (lookup id t.children) ≡ true) ⊎ (has id t.pending ≡ true)

-- A node that shows as loading is waited for, and a node that is expanded is served.
pub record IsSound (t : Tree) : Type 0 where
  pub waited : (id : Text) → has id t.loading ≡ true → has id t.pending ≡ true
  pub served : (id : Text) → has id t.expanded ≡ true → Served id t

-- A fact about `x` that holds at `y`, and elsewhere by a law.
at_or_ne : (P : Text → Type 0) (x y : Text) → P y → (text_eq x y ≡ false → P x) → P x
at_or_ne P x y here there = elim (Bool-cases (text_eq x y)) [
  | inl e ↦ rw (text_eq→eq x y e) here
  | inr e ↦ there e
]

gone :
    {A : Type 0} (x y : Text) (xs : List Text)
    → has x (delete y xs) ≡ true
    → (text_eq x y ≡ false → has x xs ≡ true → A)
    → A
gone {A} x y xs h k =
    at_or_ne (λ x. has x (delete y xs) ≡ true → A) x y
      (λ h'. absurd (false≢true (sym (has-delete y xs) ∙ h')))
      (λ ne h'. k ne (sym (has-delete_ne x y xs ne) ∙ h')) h

begun-IsSound :
    (id : Text) (o : Option (List Child)) (t : Tree)
    → lookup id t.children ≡ o
    → IsSound t
    → IsSound (begun id o (record t { expanded = add id t.expanded }))
unfolding begun
begun-IsSound id (some kids) t e h = record {
  waited = h.waited;
  served = λ x.
      at_or_ne (λ x. has x (add id t.expanded) ≡ true → Served x t) x id (λ _. inl (ap is_some e))
        (λ ne k. h.served x (sym (has-add_ne x id t.expanded ne) ∙ k));
}
begun-IsSound id none t e h = record {
  waited = λ x.
      at_or_ne (λ x. has x (add id t.loading) ≡ true → has x (t.pending ++ (id ∷ [])) ≡ true) x id
        (λ _. has-append_same id t.pending)
        (λ ne k. has-append x id t.pending (h.waited x (sym (has-add_ne x id t.loading ne) ∙ k)));
  served = λ x.
      at_or_ne
        (λ x.
          has x (add id t.expanded) ≡ true
          → (is_some (lookup x t.children) ≡ true) ⊎ (has x (t.pending ++ (id ∷ [])) ≡ true))
        x id (λ _. inr (has-append_same id t.pending))
        (λ ne k. elim (h.served x (sym (has-add_ne x id t.expanded ne) ∙ k)) [
          | inl l ↦ inl l
          | inr p ↦ inr (has-append x id t.pending p)
        ]);
}

collapse-IsSound :
    (id : Text) (t : Tree) → IsSound t → IsSound (record t { expanded = delete id t.expanded })
collapse-IsSound id t h = record {
  waited = h.waited;
  served = λ x k. gone x id t.expanded k (λ ne k'. h.served x k');
}

expand-IsSound : (id : Text) (t : Tree) → IsSound t → IsSound (expand id t)
unfolding expand
expand-IsSound id t h = begun-IsSound id (lookup id t.children) t refl h

either : (b : Bool) (t t' : Tree) → IsSound t → IsSound t' → IsSound (if b then t else t')
either true t t' h h' = h
either false t t' h h' = h'

toggle-IsSound : (id : Text) (t : Tree) → IsSound t → IsSound (toggle id t)
unfolding toggle
toggle-IsSound id t h =
    either (has id t.expanded) (record t { expanded = delete id t.expanded }) (expand id t)
      (collapse-IsSound id t h) (expand-IsSound id t h)

settle-IsSound :
    (id : Text) (o : Option (List Child)) (t : Tree) → IsSound t → IsSound (settle id o t)
unfolding settle
settle-IsSound id none t h = record {
  waited =
      λ x k. gone x id t.loading k (λ ne k'. has-take_one_ne x id t.pending ne ∙ h.waited x k');
  served = λ x k. gone x id t.expanded k (λ ne k'. elim (h.served x k') [
    | inl l ↦ inl l
    | inr p ↦ inr (has-take_one_ne x id t.pending ne ∙ p)
  ]);
}
settle-IsSound id (some kids) t h = record {
  waited =
      λ x k. gone x id t.loading k (λ ne k'. has-take_one_ne x id t.pending ne ∙ h.waited x k');
  served = λ x.
      at_or_ne
        (λ x.
          has x t.expanded ≡ true
          → (is_some (lookup x (assign id kids t.children)) ≡ true)
            ⊎ (has x (take_one id t.pending) ≡ true))
        x id (λ _. inl (ap is_some (lookup-assign id kids t.children)))
        (λ ne k. elim (h.served x k) [
          | inl l ↦ inl (ap is_some (lookup-assign_ne id x kids t.children ne) ∙ l)
          | inr p ↦ inr (has-take_one_ne x id t.pending ne ∙ p)
        ]);
}

forget-IsSound :
    (id : Text) (t : Tree)
    → IsSound t
    → has id t.expanded ≡ false
    → IsSound (record t { children = discard id t.children })
forget-IsSound id t h e = record {
  waited = h.waited;
  served = λ x.
      at_or_ne
        (λ x.
          has x t.expanded ≡ true
          → (is_some (lookup x (discard id t.children)) ≡ true) ⊎ (has x t.pending ≡ true))
        x id (λ k. absurd (false≢true (sym e ∙ k)))
        (λ ne k. elim (h.served x k) [
          | inl l ↦ inl (ap is_some (lookup-discard_ne id x t.children ne) ∙ l)
          | inr p ↦ inr p
        ]);
}

pub refresh_node-IsSound : (id : Text) (t : Tree) → IsSound t → IsSound (refresh_node id t)
unfolding refresh_node
refresh_node-IsSound id t h = elim (Bool-cases (has id t.expanded)) [
  | inl e ↦ rw e (
      toggle-IsSound id _
        (forget-IsSound id _ (collapse-IsSound id t h) (has-delete id t.expanded)))
  | inr e ↦ rw e (forget-IsSound id t h e)
]

reload_tree-IsSound : (t : Tree) → IsSound (reload_tree t)
unfolding reload_tree has
reload_tree-IsSound t = record {
  waited = λ x k. absurd (false≢true k);
  served = λ x k. absurd (false≢true k);
}

Step-IsSound : (t t' : Tree) → IsSound t → Step t t' → IsSound t'
Step-IsSound t _ h (toggled id _) = toggle-IsSound id t h
Step-IsSound t _ h (settled id kids _ p) = settle-IsSound id kids t h
Step-IsSound t _ h (reloaded _) = reload_tree-IsSound t
Step-IsSound t _ h (refreshed id _) = refresh_node-IsSound id t h

-- Whatever is clicked, and in whatever order the answers arrive, a node shows as loading only while a
-- load of it is in flight, and an expanded node has its children or such a load.
pub reached-IsSound : (t : Tree) → Reached t → IsSound t
reached-IsSound _ start =
    unfold has in
    record { waited = λ x k. absurd (false≢true k); served = λ x k. absurd (false≢true k) }
reached-IsSound _ (then_step t t' r s) = Step-IsSound t t' (reached-IsSound t r) s

-- Every load in flight ends, the `n`th with the `n`th answer, and with a failure where there is none.
abbrev pub drain : List Text → List (Option (List Child)) → Tree → Tree
drain [] answers t = t
drain (id ∷ ids) [] t = drain ids [] (settle id none t)
drain (id ∷ ids) (a ∷ answers) t = drain ids answers (settle id a t)
