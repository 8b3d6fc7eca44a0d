-- ===== src/Stringy.antt =====
-- internal/stringy/slice.go: slices of strings as sets in their order of insertion.
use nsq.Common.{
  ◌≡◌, refl, ap, ◌∙◌, Bool, false, ◌||◌, List, [], ◌∷◌, ◌++◌, Eq, ◌==◌, if◌then◌else◌, arith,
  Bool-cases, inl, inr,
}
use mathlib.Core.List.{append_assoc, append-nil}

module _ {A : Type 0} ⦃e : Eq A⦄ where
  -- The loop over `s` that looks for `a`.
  unfoldable pub contains : List A → A → Bool
  contains [] a = false
  contains (x ∷ xs) a = (a == x) || contains xs a

  unfoldable pub add : List A → A → List A
  unfolding contains
  add s a = if contains s a then s else s ++ a ∷ []

  unfoldable pub union : List A → List A → List A
  union s [] = s
  union s (a ∷ rest) = union (if contains s a then s else s ++ a ∷ []) rest

  unfoldable pub uniq_loop : List A → List A → List A
  uniq_loop r [] = r
  uniq_loop r (a ∷ rest) = uniq_loop (if contains r a then r else r ++ a ∷ []) rest

  unfoldable pub uniq : List A → List A
  unfolding uniq_loop contains
  uniq s = uniq_loop [] s

  -- No entry twice: each is absent from those before it.
  abbrev pub DistinctFrom : List A → List A → Type 0
  DistinctFrom before [] = Unit
  DistinctFrom before (x ∷ xs) = (contains before x ≡ false) × DistinctFrom (before ++ x ∷ []) xs

  pub contains-append :
      (xs ys : List A) (a : A) → contains (xs ++ ys) a ≡ (contains xs a || contains ys a)
  unfolding contains
  contains-append [] ys a = refl
  contains-append (x ∷ xs) ys a = ground (arith, contains-append xs ys a)

  add_step : List A → A → List A
  add_step s a = if contains s a then s else s ++ a ∷ []

  contains-add_step :
      (s : List A) (a b : A) → contains (add_step s a) b ≡ (contains s b || (b == a))
  unfolding add_step contains
  contains-add_step s a b = ground (arith, contains-append s (a ∷ []) b, e.test_iff b a)

  -- Union holds exactly what one of the two slices holds.
  pub contains-union :
      (s t : List A) (b : A) → contains (union s t) b ≡ (contains s b || contains t b)
  unfolding union contains add_step
  contains-union s [] b = ground arith
  contains-union s (a ∷ rest) b =
      ground (arith, contains-union (add_step s a) rest b, contains-add_step s a b)

  DistinctFrom-append :
      (before xs : List A) (a : A)
      → DistinctFrom before xs
      → contains (before ++ xs) a ≡ false
      → DistinctFrom before (xs ++ a ∷ [])
  DistinctFrom-append before [] a d h = (rw (append-nil before) at h, tt)
  DistinctFrom-append before (x ∷ xs) a d h = (
    d.0,
    DistinctFrom-append (before ++ x ∷ []) xs a d.1 (rw (append_assoc before (x ∷ []) xs) h),
  )

  -- Union adds each missing entry once, so that distinct entries stay distinct.
  pub union-distinct : (s t : List A) → DistinctFrom [] s → DistinctFrom [] (union s t)
  unfolding union
  union-distinct s [] d = d
  union-distinct s (a ∷ rest) d = elim (Bool-cases (contains s a)) [
    | inl old ↦ rw old (union-distinct s rest d)
    | inr new ↦ rw new (union-distinct (s ++ a ∷ []) rest (DistinctFrom-append [] s a d new))
  ]

  uniq_loop-union : (r s : List A) → uniq_loop r s ≡ union r s
  unfolding uniq_loop union
  uniq_loop-union r [] = refl
  uniq_loop-union r (a ∷ rest) = uniq_loop-union (if contains r a then r else r ++ a ∷ []) rest

  -- Uniq keeps every entry that occurs, and each once.
  pub uniq_lem :
      (s : List A) → ((b : A) → contains (uniq s) b ≡ contains s b) × DistinctFrom [] (uniq s)
  unfolding uniq
  uniq_lem s = (
    λ b. ap (λ t. contains t b) (uniq_loop-union [] s) ∙ contains-union [] s b,
    rw (uniq_loop-union [] s) (union-distinct [] s tt),
  )
