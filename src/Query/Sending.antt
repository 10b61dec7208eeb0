-- ===== src/Query/Sending.antt =====
-- What can reach the helper by a Run (src/query/run.js).
use tedi_sql_explorer.Base.{
  ℕ, ◌==◌, ◌≡◌, refl, sym, ap, ◌∙◌, inl, inr, ◌⊎◌, Bool, true, false, Option, none, some, [], ◌∷◌,
  ◌++◌, Text, arith, is_empty, trim, trim_idem, test, test_at, skip_spaces, Bool-cases, some-inj,
  Lacks,
}
use mathlib.Core.Path.{subst}
use mathlib.Core.Bool.{false≢true}
use mathlib.Core.Option.{none-ne-some}
use tedi_sql_explorer.Session.{Session}
use tedi_sql_explorer.Dialects.{get_dialect}
use tedi_sql_explorer.Sql.Destructive.{Reason, destructive_reason}
use tedi_sql_explorer.Query.{
  active_sql, second_at, has_multiple_statements, drop_last_semicolon, asked_or_sent, plan,
  sent_sql,
}

one_statement :
    (prev : Option ℕ) (s : Text)
    → test_at second_at prev s ≡ false
    → Lacks b';' (drop_last_semicolon s)
unfolding test_at second_at drop_last_semicolon
one_statement prev [] h = tt
one_statement prev (c ∷ s) h = elim (Bool-cases (c == b';')) [
  | inl e ↦ elim (Bool-cases (is_empty (skip_spaces s))) [
    | inl e' ↦ rw (e, e') tt
    | inr e' ↦ absurd (false≢true (sym (rw (e, e') at h)))
  ]
  | inr e ↦ rw e (ground arith, one_statement (some c) s (rw e at h))
]

-- An ordinary Run: a statement is sent as it stands in the editor or the selection, and one that
-- `destructiveReason` flags is sent only after the user confirmed it.
pub run-confirmed :
    (kind : Option Text) (selection sql : Text) (ok : Bool) (s : Session)
    → sent_sql ok (plan false kind selection s) ≡ some sql
    → (sql ≡ trim (active_sql selection s)) × ((destructive_reason sql ≡ none) ⊎ (ok ≡ true))
unfolding plan sent_sql
run-confirmed kind selection sql ok s h =
    elim (Bool-cases (is_empty (trim (active_sql selection s)))) [
      | inl e ↦ absurd (none-ne-some _ (rw e at h))
      | inr e ↦
          decided (trim (active_sql selection s))
            (destructive_reason (trim (active_sql selection s))) refl (rw e at h)
    ]
  where
    decided :
        (t : Text) (r : Option Reason)
        → destructive_reason t ≡ r
        → sent_sql ok (asked_or_sent r t) ≡ some sql
        → (sql ≡ t) × ((destructive_reason sql ≡ none) ⊎ (ok ≡ true))
    decided t none e k =
        (sym (some-inj k), inl (subst (λ x. destructive_reason x ≡ none) (some-inj k) e))
    decided t (some r) e k = elim (Bool-cases ok) [
      | inl c ↦ (sym (some-inj (rw c at k)), inr c)
      | inr c ↦ absurd (none-ne-some _ (rw c at k))
    ]

-- Explain sends one statement: the engine's prefix, and behind it a text without any `;`, so that no
-- part of it runs on its own.
pub explain-one :
    (kind : Option Text) (selection sql : Text) (ok : Bool) (s : Session)
    → sent_sql ok (plan true kind selection s) ≡ some sql
    → (body : Text) × (sql ≡ (get_dialect kind).explain_prefix ++ body) × Lacks b';' body
unfolding plan sent_sql
explain-one kind selection sql ok s h = elim (Bool-cases (is_empty t)) [
  | inl e ↦ absurd (none-ne-some _ (rw e at h))
  | inr e ↦ elim (Bool-cases (has_multiple_statements t)) [
    | inl m ↦ absurd (none-ne-some _ (rw (e, m) at h))
    | inr m ↦
        (drop_last_semicolon t, sym (some-inj (rw (e, m) at h)), one_statement none t (single m))
  ]
]
  where
    t : Text
    t = trim (active_sql selection s)

    single : has_multiple_statements t ≡ false → test_at second_at none t ≡ false
    single m =
        ap (test_at second_at none) (sym (trim_idem (active_sql selection s)))
        ∙ unfold has_multiple_statements test in m
