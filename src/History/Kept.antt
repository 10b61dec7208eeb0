-- ===== src/History/Kept.antt =====
-- What any series of calls leaves in a history (src/query/history.js).
use tedi_sql_explorer.Base.{
  ℕ, zero, suc, ◌≤◌, ◌<◌, ltb, ◌≡◌, ◌≢◌, refl, sym, inl, inr, false, ◌||◌, List, [], ◌∷◌, Text,
  arith, text_eq, text_eq_refl, text_eq→eq, text_ne, is_empty, trim, Bool-cases, length, take,
  length-take, All, All-take,
}
use tedi_sql_explorer.History.{
  Entry, History, max_entries, max_sql_length, entries, put, remove, holds_password, newest_is,
  push, record_sql, Call, ran, cleared, step, run, Age, just_now, minutes, hours, days, age,
  round_div,
}

-- A statement that may be stored.
pub record IsRecorded (e : Entry) : Type 0 where
  pub not_empty : e.sql ≢ []
  pub not_long : length e.sql ≤ max_sql_length
  pub no_password : holds_password e.sql ≡ false

abbrev pub NoRepeat : List Entry → Type 0
NoRepeat [] = Unit
NoRepeat (e ∷ []) = Unit
NoRepeat (e ∷ f ∷ es) = (e.sql ≢ f.sql) × NoRepeat (f ∷ es)

pub record IsKept (es : List Entry) : Type 0 where
  pub bounded : length es ≤ max_entries
  pub recorded : All IsRecorded es
  pub no_repeat : NoRepeat es

take-NoRepeat : (n : ℕ) (es : List Entry) → NoRepeat es → NoRepeat (take n es)
take-NoRepeat zero es h = tt
take-NoRepeat (suc n) [] h = tt
take-NoRepeat (suc zero) (e ∷ es) h = tt
take-NoRepeat (suc (suc n)) (e ∷ []) h = tt
take-NoRepeat (suc (suc n)) (e ∷ f ∷ es) h = (h.0, take-NoRepeat (suc n) (f ∷ es) h.1)

pub entries-put : (id : Text) (es : List Entry) (all : History) → entries id (put id es all) ≡ es
unfolding entries put
entries-put id es [] = rw (text_eq_refl id)
entries-put id es ((j, fs) ∷ rest) = elim (Bool-cases (text_eq id j)) [
  | inl e ↦ rw (e, e)
  | inr e ↦ rw (e, e) (entries-put id es rest)
]

pub entries-put_ne :
    (id other : Text) (es : List Entry) (all : History)
    → text_eq other id ≡ false
    → entries other (put id es all) ≡ entries other all
unfolding entries put
entries-put_ne id other es [] h = rw h
entries-put_ne id other es ((j, fs) ∷ rest) h = elim (Bool-cases (text_eq id j)) [
  | inl e ↦ rw (e, sym (text_eq→eq id j e), h)
  | inr e ↦ elim (Bool-cases (text_eq other j)) [
    | inl e' ↦ rw (e, e')
    | inr e' ↦ rw (e, e') (entries-put_ne id other es rest h)
  ]
]

pub entries-remove : (id : Text) (all : History) → entries id (remove id all) ≡ []
unfolding entries remove
entries-remove id [] = refl
entries-remove id ((j, fs) ∷ rest) = elim (Bool-cases (text_eq id j)) [
  | inl e ↦ rw e (entries-remove id rest)
  | inr e ↦ rw (e, e) (entries-remove id rest)
]

pub entries-remove_ne :
    (id other : Text) (all : History)
    → text_eq other id ≡ false
    → entries other (remove id all) ≡ entries other all
unfolding entries remove
entries-remove_ne id other [] h = refl
entries-remove_ne id other ((j, fs) ∷ rest) h = elim (Bool-cases (text_eq id j)) [
  | inl e ↦ rw (e, sym (text_eq→eq id j e), h) (entries-remove_ne id other rest h)
  | inr e ↦ elim (Bool-cases (text_eq other j)) [
    | inl e' ↦ rw (e, e')
    | inr e' ↦ rw (e, e') (entries-remove_ne id other rest h)
  ]
]

push-IsKept :
    (now : ℕ) (id t other : Text) (all : History)
    → IsRecorded (record { sql = t; at = now })
    → ((i : Text) → IsKept (entries i all))
    → IsKept (entries other (push now id t all))
unfolding push newest_is
push-IsKept now id t other all new h = elim (Bool-cases (newest_is t (entries id all))) [
  | inl e ↦ rw e (h other)
  | inr e ↦ elim (Bool-cases (text_eq other id)) [
    | inl same ↦
        rw (e, text_eq→eq other id same, entries-put id (added (entries id all)) all)
          (added-IsKept (entries id all) e (h id))
    | inr ne ↦ rw (e, entries-put_ne id other (added (entries id all)) all ne) (h other)
  ]
]
  where
    added : List Entry → List Entry
    added es = take max_entries (record { sql = t; at = now } ∷ es)

    added-IsKept : (es : List Entry) → newest_is t es ≡ false → IsKept es → IsKept (added es)
    added-IsKept es e k = record {
      bounded = omega (arith, length-take max_entries (record { sql = t; at = now } ∷ es));
      recorded =
          All-take IsRecorded max_entries (record { sql = t; at = now } ∷ es) (new, k.recorded);
      no_repeat =
          take-NoRepeat max_entries (record { sql = t; at = now } ∷ es) (chain es e k.no_repeat);
    }
      where
        chain :
            (fs : List Entry)
            → newest_is t fs ≡ false
            → NoRepeat fs
            → NoRepeat (record { sql = t; at = now } ∷ fs)
        chain [] e n = tt
        chain (f ∷ fs) e n = (λ same. text_ne f.sql t e (sym same), n)

is_empty-ne : (s : Text) → is_empty s ≡ false → s ≢ []
is_empty-ne [] h = cc
is_empty-ne (c ∷ s) h = λ e. cc

record_sql-IsKept :
    (now : ℕ) (id sql other : Text) (all : History)
    → ((i : Text) → IsKept (entries i all))
    → IsKept (entries other (record_sql now id sql all))
unfolding record_sql
record_sql-IsKept now id sql other all h =
    elim (Bool-cases
      (is_empty id || is_empty (trim sql) || ltb max_sql_length (length (trim sql)))) [
        | inl e ↦ rw e (h other)
        | inr e ↦ elim (Bool-cases (holds_password (trim sql))) [
          | inl p ↦ rw (e, p) (h other)
          | inr p ↦ rw (e, p) (push-IsKept now id (trim sql) other all (new e p) h)
        ]
      ]
  where
    new :
        (is_empty id || is_empty (trim sql) || ltb max_sql_length (length (trim sql))) ≡ false
        → holds_password (trim sql) ≡ false
        → IsRecorded (record { sql = trim sql; at = now })
    new e p = record {
      not_empty = is_empty-ne (trim sql) (ground arith);
      not_long = ground arith;
      no_password = p;
    }

remove-IsKept :
    (id other : Text) (all : History)
    → ((i : Text) → IsKept (entries i all))
    → IsKept (entries other (remove id all))
remove-IsKept id other all h = elim (Bool-cases (text_eq other id)) [
  | inl e ↦
      rw (text_eq→eq other id e, entries-remove id all)
        (record { bounded = omega arith; recorded = tt; no_repeat = tt })
  | inr e ↦ rw (entries-remove_ne id other all e) (h other)
]

-- After any series of calls on a history that is in order, every connection's list is in order: at
-- most 200 entries, none of them empty, longer than 20 000 or taken for a password statement, and no
-- two neighbours with the same statement.
pub run-IsKept :
    (calls : List Call) (all : History)
    → ((i : Text) → IsKept (entries i all))
    → (i : Text) → IsKept (entries i (run calls all))
unfolding run step
run-IsKept [] all h i = h i
run-IsKept (ran now id sql ∷ cs) all h i =
    run-IsKept cs (record_sql now id sql all) (λ j. record_sql-IsKept now id sql j all h) i
run-IsKept (cleared id ∷ cs) all h i =
    run-IsKept cs (remove id all) (λ j. remove-IsKept id j all h) i

pub record_sql_ne :
    (now : ℕ) (id sql other : Text) (all : History)
    → text_eq other id ≡ false
    → entries other (record_sql now id sql all) ≡ entries other all
unfolding record_sql push
record_sql_ne now id sql other all h =
    elim (Bool-cases
      (is_empty id || is_empty (trim sql) || ltb max_sql_length (length (trim sql)))) [
        | inl e ↦ rw e
        | inr e ↦ elim (Bool-cases (holds_password (trim sql))) [
          | inl p ↦ rw (e, p)
          | inr p ↦ elim (Bool-cases (newest_is (trim sql) (entries id all))) [
            | inl n ↦ rw (e, p, n)
            | inr n ↦ rw (e, p, n) (entries-put_ne id other _ all h)
          ]
        ]
      ]

-- What `relativeTime` may show: no unit is shown as 0, minutes stay below 60 and hours below 24.
abbrev pub IsAge : Age → Type 0
IsAge just_now = Unit
IsAge (minutes n) = (1 ≤ n) × (n < 60)
IsAge (hours n) = (1 ≤ n) × (n < 24)
IsAge (days n) = 1 ≤ n

-- Whatever the two times are, what is shown is in range.
age-IsAge : (now ts : ℕ) → IsAge (age now ts)
unfolding age round_div
age-IsAge now ts = ground arith
