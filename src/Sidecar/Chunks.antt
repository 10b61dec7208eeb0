-- ===== src/Sidecar/Chunks.antt =====
-- The helper's output arrives in pieces; where they are cut does not matter (src/sidecar.js).
use mathlib.Core.Option.{none-ne-some}
use tedi_sql_explorer.Base.{
  ℕ, ◌≤◌, ◌==◌, ◌≡◌, refl, sym, ap, ◌∙◌, inl, inr, Bool, true, false, Option, none, some, some-inj,
  List, [], ◌∷◌, ◌++◌, append_assoc, append-nil, Text, codes, arith, Bool-cases, length,
  strip_prefix, trim, All, if◌then◌else◌, ◌⊎◌,
}
use tedi_sql_explorer.Sidecar.{
  Ready, after_ready, first_line, extract_ready, Poll, timed_out, found, boot_loop,
}

if_some :
    {A : Type 0} (b : Bool) (o : Option A) (a : A)
    → (if b then o else none) ≡ some a
    → (b ≡ true) × (o ≡ some a)
if_some true o a h = (refl, h)
if_some false o a h = absurd (none-ne-some _ h)

if_none :
    {A : Type 0} (b : Bool) (o o' : Option A)
    → (o ≡ none → o' ≡ none)
    → (if b then o else none) ≡ none
    → (if b then o' else none) ≡ none
if_none true o o' f h = f h
if_none false o o' f h = refl

strip_some : (p s m t : Text) → strip_prefix p s ≡ some t → strip_prefix p (s ++ m) ≡ some (t ++ m)
unfolding strip_prefix
strip_some [] s m t h = ap (λ u. some (u ++ m)) (some-inj h)
strip_some (p ∷ ps) [] m t h = absurd (none-ne-some _ h)
strip_some (p ∷ ps) (c ∷ s) m t h =
    let (e, rest) = if_some (p == c) (strip_prefix ps s) t h in rw e (strip_some ps s m t rest)

strip_length : (p s t : Text) → strip_prefix p s ≡ some t → length {0} p ≤ length {0} s
unfolding strip_prefix
strip_length [] s t h = omega arith
strip_length (p ∷ ps) [] t h = absurd (none-ne-some _ h)
strip_length (p ∷ ps) (c ∷ s) t h =
    let (e, rest) = if_some (p == c) (strip_prefix ps s) t h in
    omega (arith, strip_length ps s t rest)

strip_none :
    (p s m : Text)
    → strip_prefix p s ≡ none
    → length {0} p ≤ length {0} s
    → strip_prefix p (s ++ m) ≡ none
unfolding strip_prefix
strip_none [] s m h l = absurd (none-ne-some s (sym h))
strip_none (p ∷ ps) [] m h l = absurd (omega (arith, l))
strip_none (p ∷ ps) (c ∷ s) m h l =
    if_none (p == c) (strip_prefix ps s) (strip_prefix ps (s ++ m))
      (λ k. strip_none ps s m k (omega (arith, l))) h

-- The first match, where there is one.
after_found :
    (c : ℕ) (s t : Text)
    → strip_prefix (codes "READY ") (c ∷ s) ≡ some t
    → after_ready (c ∷ s) ≡ some t
unfolding after_ready
after_found c s t h = rw (after_ready, h) refl

after_missed :
    (c : ℕ) (s : Text)
    → strip_prefix (codes "READY ") (c ∷ s) ≡ none
    → after_ready (c ∷ s) ≡ after_ready s
unfolding after_ready
after_missed c s h = rw (after_ready, h) refl

Option-cases : {A : Type 0} (o : Option A) → (o ≡ none) ⊎ ((a : A) × (o ≡ some a))
Option-cases none = inl refl
Option-cases (some a) = inr (a, refl)

after_length : (s t : Text) → after_ready s ≡ some t → 6 ≤ length {0} s
after_length [] t h = absurd (none-ne-some t (unfold after_ready in h))
after_length (c ∷ s) t h = elim (Option-cases (strip_prefix (codes "READY ") (c ∷ s))) [
  | inl e ↦ omega (arith, after_length s t (sym (after_missed c s e) ∙ h))
  | inr (u, e) ↦ strip_length (codes "READY ") (c ∷ s) u e
]

after_some : (s m t : Text) → after_ready s ≡ some t → after_ready (s ++ m) ≡ some (t ++ m)
after_some [] m t h = absurd (none-ne-some t (unfold after_ready in h))
after_some (c ∷ s) m t h = elim (Option-cases (strip_prefix (codes "READY ") (c ∷ s))) [
  | inl e ↦
      after_missed c (s ++ m) (strip_none (codes "READY ") (c ∷ s) m e (after_length (c ∷ s) t h))
      ∙ after_some s m t (sym (after_missed c s e) ∙ h)
  | inr (u, e) ↦
      after_found c (s ++ m) (u ++ m) (strip_some (codes "READY ") (c ∷ s) m u e)
      ∙ ap (λ v. some (v ++ m)) (some-inj (sym (after_found c s u e) ∙ h))
]

line_end : (c : ℕ) (s : Text) → (c == 10) ≡ true → first_line (c ∷ s) ≡ some []
unfolding first_line
line_end c s e = elim (Option-cases (first_line s)) [
  | inl o ↦ rw (o, e) refl
  | inr (l, o) ↦ rw (o, e) refl
]

line_none : (c : ℕ) (s : Text) → (c == 10) ≡ false → first_line s ≡ none → first_line (c ∷ s) ≡ none
unfolding first_line
line_none c s e o = rw (o, e) refl

line_more :
    (c : ℕ) (s l : Text)
    → (c == 10) ≡ false
    → first_line s ≡ some l
    → first_line (c ∷ s) ≡ some (c ∷ l)
unfolding first_line
line_more c s l e o = rw (o, e) refl

line_some : (s m l : Text) → first_line s ≡ some l → first_line (s ++ m) ≡ some l
line_some [] m l h = absurd (none-ne-some l (unfold first_line in h))
line_some (c ∷ s) m l h = elim (Bool-cases (c == 10)) [
  | inl e ↦ line_end c (s ++ m) e ∙ sym (line_end c s e) ∙ h
  | inr e ↦ elim (Option-cases (first_line s)) [
    | inl o ↦ absurd (none-ne-some l (sym (line_none c s e o) ∙ h))
    | inr (k, o) ↦ line_more c (s ++ m) k e (line_some s m k o) ∙ sym (line_more c s k e o) ∙ h
  ]
]

line_of :
    (parse : Text → Option Ready) (buf t l : Text)
    → after_ready buf ≡ some t
    → first_line t ≡ some l
    → extract_ready parse buf ≡ parse (trim l)
unfolding extract_ready
line_of parse buf t l a b = rw (a, b) refl

no_line :
    (parse : Text → Option Ready) (buf t : Text)
    → after_ready buf ≡ some t
    → first_line t ≡ none
    → extract_ready parse buf ≡ none
unfolding extract_ready
no_line parse buf t a b = rw (a, b) refl

no_ready :
    (parse : Text → Option Ready) (buf : Text)
    → after_ready buf ≡ none
    → extract_ready parse buf ≡ none
unfolding extract_ready
no_ready parse buf a = rw a refl

-- What was read stays read when more output arrives.
extract_ready-append :
    (parse : Text → Option Ready) (buf more : Text) (r : Ready)
    → extract_ready parse buf ≡ some r
    → extract_ready parse (buf ++ more) ≡ some r
extract_ready-append parse buf more r h = elim (Option-cases (after_ready buf)) [
  | inl a ↦ absurd (none-ne-some r (sym (no_ready parse buf a) ∙ h))
  | inr (t, a) ↦ elim (Option-cases (first_line t)) [
    | inl b ↦ absurd (none-ne-some r (sym (no_line parse buf t a b) ∙ h))
    | inr (l, b) ↦
        line_of parse (buf ++ more) (t ++ more) l (after_some buf more t a) (line_some t more l b)
        ∙ sym (line_of parse buf t l a b)
        ∙ h
  ]
]

-- The whole output of a series of polls.
abbrev pub output : List Poll → Text
output [] = []
output (p ∷ ps) = p.bytes ++ output ps

booted :
    (parse : Text → Option Ready) (buf : Text) (ps : List Poll)
    → extract_ready parse buf ≡ none
    → All (λ (p : Poll). p.exited ≡ false) ps
    → boot_loop parse buf ps ≡ found (extract_ready parse (buf ++ output ps)) timed_out
unfolding boot_loop
booted parse buf [] n h = rw (append-nil buf, n) refl
booted parse buf (p ∷ ps) n h = elim (Option-cases (extract_ready parse (buf ++ p.bytes))) [
  | inl e ↦
      rw (h.0, e)
        (booted parse (buf ++ p.bytes) ps e h.1
          ∙ ap (λ t. found (extract_ready parse t) timed_out)
              (append_assoc buf p.bytes (output ps)))
  | inr (r, e) ↦
      rw (h.0, e)
        (sym (
          ap (λ o. found o timed_out)
            (ap (extract_ready parse) (sym (append_assoc buf p.bytes (output ps)))
              ∙ extract_ready-append parse (buf ++ p.bytes) (output ps) r e)))
]

-- While the helper has not exited, the boot reads what it would read of the whole output at once: where
-- the polls cut the output does not matter, a READY line that is complete is found, and without one
-- the boot times out.
pub boot_loop-output :
    (parse : Text → Option Ready) (polls : List Poll)
    → All (λ (p : Poll). p.exited ≡ false) polls
    → boot_loop parse [] polls ≡ found (extract_ready parse (output polls)) timed_out
boot_loop-output parse polls h =
    booted parse [] polls (no_ready parse [] (unfold after_ready in refl)) h
