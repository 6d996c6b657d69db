-- ===== src/Collect/Totals.antt =====
-- internal/collect: what the counters and a published snapshot say, from the attempts alone.
use nvidia_gpu_exporter.Collect.{
  CollectError, Snapshot, Attempt, is_fatal, collect_once, Counters, fold_cumulative,
}
use nvidia_gpu_exporter.Collect.Readings.{no_extras}
use nvidia_gpu_exporter.Common.{
  if◌then◌else◌, Bool-cases, Option-cases, length, filter, length-append_one, ℕ, ◌+◌, ◌-◌, ◌%◌, ◌^◌,
  ◌≡◌, refl, sym, ap, ◌∙◌, inl, inr, Bool, true, false, not, ◌&&◌, Option, none, some, List, [],
  ◌∷◌, ◌++◌, map, append-nil, arith, list_comparable, nat_comparable,
}

abbrev pub succeeded : Attempt → Bool
succeeded a = elim a.error [ none ↦ true | some e ↦ false ]

abbrev pub failed : Attempt → Bool
failed a = not (succeeded a)

abbrev pub last_or : ℕ → List ℕ → ℕ
last_or d [] = d
last_or d (x ∷ xs) = last_or x xs

-- The failures are counted in a uint64; the last success is the end of the last attempt that
-- succeeded, and the zero time if none did.
abbrev pub totals : List Attempt → Counters
totals attempts = record {
  failures = length (filter failed attempts) % 2 ^ 64;
  last_ok = last_or 0 (map (λ (a : Attempt). a.now) (filter succeeded attempts));
}

abbrev when {ℓ} : {A : Type ℓ} → Bool → A → A → A
when true x d = x
when false x d = d

-- What is published of an attempt, with the counters behind it.
abbrev pub report : Attempt → Counters → Snapshot
report a c = record {
  attempted = true;
  success = succeeded a;
  table = when (succeeded a) a.reading.table none;
  apps = when (succeeded a) a.reading.apps [];
  apps_attempted = when (succeeded a) a.reading.apps_attempted false;
  apps_success = when (succeeded a) a.reading.apps_success false;
  extras = when (succeeded a) a.reading.extras no_extras;
  exit_code = a.exit_code;
  duration = a.now - a.start;
  last_success = c.last_ok;
  failures = c.failures;
  error = a.error;
}

-- The errors that shut the exporter down, for a callback that is set: those of an *exec.ExitError
-- or a *FatalError in a context that has not ended.
abbrev pub fatal_call : Bool → Attempt → Option CollectError
fatal_call on_fatal a = elim a.error [
  | none ↦ none
  | some e ↦ if not a.expired && on_fatal && is_fatal e then some e else none
]

filter-append_one {ℓ} :
    {A : Type ℓ} (p : A → Bool) (xs : List A) (x : A)
    → filter p (xs ++ x ∷ []) ≡ filter p xs ++ filter p (x ∷ [])
filter-append_one p [] x = refl
filter-append_one p (y ∷ xs) x = elim (Bool-cases (p y)) [
  | inl h ↦ rw h (ap (◌∷◌ y) (filter-append_one p xs x))
  | inr h ↦ rw h (filter-append_one p xs x)
]

last_or-append_one : (d : ℕ) (xs : List ℕ) (x : ℕ) → last_or d (xs ++ x ∷ []) ≡ x
last_or-append_one d [] x = refl
last_or-append_one d (y ∷ xs) x = last_or-append_one y xs x

map-append_one {ℓ κ} :
    {A : Type ℓ} {B : Type κ} (f : A → B) (xs : List A) (x : A)
    → map f (xs ++ x ∷ []) ≡ map f xs ++ f x ∷ []
map-append_one f [] x = refl
map-append_one f (y ∷ xs) x = ap (◌∷◌ (f y)) (map-append_one f xs x)

filter-last_true {ℓ} :
    {A : Type ℓ} (p : A → Bool) (xs : List A) (x : A)
    → p x ≡ true
    → filter p (xs ++ x ∷ []) ≡ filter p xs ++ x ∷ []
filter-last_true p xs x h = filter-append_one p xs x ∙ rw h refl

filter-last_false {ℓ} :
    {A : Type ℓ} (p : A → Bool) (xs : List A) (x : A)
    → p x ≡ false
    → filter p (xs ++ x ∷ []) ≡ filter p xs
filter-last_false p xs x h = filter-append_one p xs x ∙ rw h (append-nil _)

counters_ext :
    {f g l m : ℕ}
    → f ≡ g
    → l ≡ m
    → ◌≡◌ {A = Counters}
        (record { failures = f; last_ok = l })
        (record { failures = g; last_ok = m })
counters_ext hf hl = cc

totals_failed :
    (attempts : List Attempt) (a : Attempt) (x : CollectError)
    → a.error ≡ some x
    → totals (attempts ++ a ∷ []) ≡ record {
      failures = ((totals attempts).failures + 1) % 2 ^ 64;
      last_ok = (totals attempts).last_ok;
    }
totals_failed attempts a x h =
    let one_more = filter-last_true failed attempts a (rw h refl) in
    let counted = length-append_one (filter failed attempts) a in
    counters_ext (rw (one_more, counted) (omega arith))
      (rw (filter-last_false succeeded attempts a (rw h refl)) refl)

totals_succeeded :
    (attempts : List Attempt) (a : Attempt)
    → a.error ≡ none
    → totals (attempts ++ a ∷ [])
      ≡ record { failures = (totals attempts).failures; last_ok = a.now }
totals_succeeded attempts a h =
    counters_ext (rw (filter-last_false failed attempts a (rw h refl)) refl) (
      rw
        (
          filter-last_true succeeded attempts a (rw h refl),
          map-append_one (λ (a : Attempt). a.now) (filter succeeded attempts) a,
        )
        (last_or-append_one 0 (map (λ (a : Attempt). a.now) (filter succeeded attempts)) a.now))

fold_succeeded :
    (on_fatal : Bool) (c : Counters) (a : Attempt)
    → a.error ≡ none
    → fold_cumulative (collect_once on_fatal a).0 c ≡ (
      report a (record { failures = c.failures; last_ok = a.now }),
      record { failures = c.failures; last_ok = a.now },
    )
unfolding fold_cumulative collect_once
fold_succeeded on_fatal c a e = rw e refl

fold_failed :
    (on_fatal : Bool) (c : Counters) (a : Attempt) (x : CollectError)
    → a.error ≡ some x
    → fold_cumulative (collect_once on_fatal a).0 c ≡ (
      report a (record { failures = (c.failures + 1) % 2 ^ 64; last_ok = c.last_ok }),
      record { failures = (c.failures + 1) % 2 ^ 64; last_ok = c.last_ok },
    )
unfolding fold_cumulative collect_once
fold_failed on_fatal c a x e = rw e refl

-- One collection, folded into the counters of the attempts before it.
pub fold_cumulative-collect_once :
    (on_fatal : Bool) (attempts : List Attempt) (a : Attempt)
    → fold_cumulative (collect_once on_fatal a).0 (totals attempts)
      ≡ (report a (totals (attempts ++ a ∷ [])), totals (attempts ++ a ∷ []))
fold_cumulative-collect_once on_fatal attempts a = elim (Option-cases a.error) [
  | inl e ↦
      fold_succeeded on_fatal (totals attempts) a e
      ∙ ap (λ c. (report a c, c)) (sym (totals_succeeded attempts a e))
  | inr (x, e) ↦
      fold_failed on_fatal (totals attempts) a x e
      ∙ ap (λ c. (report a c, c)) (sym (totals_failed attempts a x e))
]

-- Its call of `onFatal`.
pub collect_once-fatal_call :
    (on_fatal : Bool) (a : Attempt) → (collect_once on_fatal a).1 ≡ fatal_call on_fatal a
unfolding collect_once
collect_once-fatal_call on_fatal a = elim (Option-cases a.error) [
  | inl e ↦ rw e refl
  | inr (x, e) ↦ rw e refl
]
