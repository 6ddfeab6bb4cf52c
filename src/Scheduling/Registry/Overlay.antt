-- ===== src/Scheduling/Registry/Overlay.antt =====
-- A loop over rows that writes one job for each, and the row that owns a job's id.
use runlet.Prelude.{
  ℕ, true, false, ◌≡◌, refl, ap, ◌∙◌, Option, List, [], ◌∷◌, map, Text, if◌then◌else◌, ◌==◌, nat_eq,
  list_eq, list_beq_iff, Bool-cases, inl, inr, contains, distinct, All, Result, ok, arith,
}
use runlet.Scheduling.Registry.Scheduler.{ScheduledJob, Scheduler}
use runlet.Scheduling.Registry.Upsert.{CrontabError, for_each}

module _ {A : Type 0} (key_of : A → Text) (want : A → Option ScheduledJob) where
  -- The job for the first row with this key; without such a row, what was there.
  abbrev pub owned : List A → Text → Option ScheduledJob → Option ScheduledJob
  owned [] j before = before
  owned (r ∷ rows) j before = if key_of r == j then want r else owned rows j before

  -- The same when the rows are written one after the other.
  pub overlay : List A → Text → Option ScheduledJob → Option ScheduledJob
  overlay [] j before = before
  overlay (r ∷ rows) j before = overlay rows j (if key_of r == j then want r else before)

  overlay_absent :
      (rows : List A) (j : Text) (before : Option ScheduledJob)
      → contains j (map key_of rows) ≡ false
      → overlay rows j before ≡ before
  unfolding overlay contains
  overlay_absent [] j before h = refl
  overlay_absent (r ∷ rows) j before h = ground (
    arith,
    list_beq_iff (key_of r) j,
    list_beq_iff j (key_of r),
    overlay_absent rows j before,
    overlay_absent rows j (want r),
  )

  pub overlay-owned :
      (rows : List A) (j : Text) (before : Option ScheduledJob)
      → distinct (map key_of rows) ≡ true
      → overlay rows j before ≡ owned rows j before
  unfolding overlay distinct
  overlay-owned [] j before h = refl
  overlay-owned (r ∷ rows) j before h = elim (Bool-cases (key_of r == j)) [
    | inl e ↦
        let same : key_of r ≡ j = (list_beq_iff (key_of r) j).0 e in
        let absent : contains j (map key_of rows) ≡ false = rw (← same) (ground arith) in
        rw e (overlay_absent rows j (want r) absent)
    | inr e ↦ rw e (overlay-owned rows j before (ground arith))
  ]

module _ {S : Type 0} (scheduler : Scheduler S) {A : Type 0} (id_of : A → ℕ) (key_of : A → Text)
    (want : A → Option ScheduledJob) (step : ℕ → S → Result (CrontabError × S) S) where
  -- The step for the row succeeds and changes the job with the row's key alone.
  abbrev pub Places : A → Type 0
  Places r =
      (s : S)
      → (s' : S) × (step (id_of r) s ≡ ok s')
        × ((j : Text)
            → scheduler.get_job j s' ≡ (if key_of r == j then want r else scheduler.get_job j s))

  pub for_each-overlay :
      (rows : List A) (s : S)
      → All Places rows
      → (s' : S) × (for_each scheduler step (map id_of rows) s ≡ ok s')
        × ((j : Text) → scheduler.get_job j s' ≡ overlay key_of want rows j (scheduler.get_job j s))
  unfolding for_each overlay
  for_each-overlay [] s h = (s, refl, λ j. refl)
  for_each-overlay (r ∷ rows) s h =
      let (s1, e1, g1) = h.0 s in
      let (s2, e2, g2) = for_each-overlay rows s1 h.1 in
      (s2, rw e1 e2, λ j. g2 j ∙ ap (overlay key_of want rows j) (g1 j))

  pub for_each-owned :
      (rows : List A) (s : S)
      → distinct (map key_of rows) ≡ true
      → All Places rows
      → (s' : S) × (for_each scheduler step (map id_of rows) s ≡ ok s')
        × ((j : Text) → scheduler.get_job j s' ≡ owned key_of want rows j (scheduler.get_job j s))
  for_each-owned rows s d h =
      let (s', e, g) = for_each-overlay rows s h in
      (s', e, λ j. g j ∙ overlay-owned key_of want rows j (scheduler.get_job j s) d)

pub All_zip {ℓ κ μ ν} :
    {A : Type ℓ} {P : A → Type κ} {Q : A → Type μ} {R : A → Type ν} (xs : List A)
    → ((x : A) → P x → Q x → R x)
    → All P xs
    → All Q xs
    → All R xs
All_zip [] f h k = tt
All_zip (x ∷ xs) f h k = (f x h.0 k.0, All_zip xs f h.1 k.1)
