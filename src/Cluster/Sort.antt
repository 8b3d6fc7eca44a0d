-- ===== src/Cluster/Sort.antt =====
-- sort.Strings, as the ascending list of the same entries, on a type with a strict order; and the
-- order of Go on strings, which compares byte by byte.
use nsq.Common.{
  ℕ, ◌+◌, ◌≡◌, refl, sym, ap, subst, Bool, true, false, ◌&&◌, ◌||◌, List, [], ◌∷◌, ◌++◌, Eq, ◌==◌,
  if◌then◌else◌, ltb, nat_beq, bytes_eq, arith, Bool-cases, inl, inr,
}
use nsq.Stringy.{contains, DistinctFrom, contains-append}

-- A type that the program compares with `<`.
pub record Order {ℓ} (A : Type ℓ) : Type ℓ where
  pub less : A → A → Bool
  pub irreflexive : (x : A) → less x x ≡ false
  pub transitive : (x y z : A) → less x y ≡ true → less y z ≡ true → less x z ≡ true
  pub connected : (x y : A) → less x y ≡ false → less y x ≡ false → x ≡ y

-- Sums over the entries.
abbrev pub sum_over : {A : Type 0} → (A → ℕ) → List A → ℕ
sum_over w [] = 0
sum_over w (x ∷ xs) = w x + sum_over w xs

-- sort.Sort, by the given Less; entries of which neither is less stay in order.
module _ {A : Type 0} (less : A → A → Bool) where
  unfoldable pub insert_by : A → List A → List A
  insert_by x [] = x ∷ []
  insert_by x (y ∷ ys) = let rest = insert_by x ys in if less y x then y ∷ rest else x ∷ y ∷ ys

  unfoldable pub sort_by : List A → List A
  sort_by [] = []
  sort_by (x ∷ xs) = insert_by x (sort_by xs)

  sum_over-insert_by :
      (w : A → ℕ) (x : A) (ys : List A) → sum_over w (insert_by x ys) ≡ w x + sum_over w ys
  unfolding insert_by
  sum_over-insert_by w x [] = refl
  sum_over-insert_by w x (y ∷ ys) = ground (arith, sum_over-insert_by w x ys)

  pub sum_over-sort_by : (w : A → ℕ) (xs : List A) → sum_over w (sort_by xs) ≡ sum_over w xs
  unfolding sort_by
  sum_over-sort_by w [] = refl
  sum_over-sort_by w (x ∷ xs) =
      omega (arith, sum_over-insert_by w x (sort_by xs), sum_over-sort_by w xs)

module _ {A : Type 0} ⦃o : Order A⦄ where
  unfoldable pub insert_sorted : A → List A → List A
  insert_sorted x [] = x ∷ []
  insert_sorted x (y ∷ ys) =
      let rest = insert_sorted x ys in if o.less y x then y ∷ rest else x ∷ y ∷ ys

  unfoldable pub sort : List A → List A
  sort [] = []
  sort (x ∷ xs) = insert_sorted x (sort xs)

module _ {A : Type 0} ⦃e : Eq A⦄ ⦃o : Order A⦄ where
  -- Each entry is less than every later one.
  abbrev pub IsAscending : List A → Type 0
  IsAscending [] = Unit
  IsAscending (x ∷ xs) = ((b : A) → contains xs b ≡ true → o.less x b ≡ true) × IsAscending xs

  contains-insert_sorted :
      (x : A) (ys : List A) (b : A) → contains (insert_sorted x ys) b ≡ ((b == x) || contains ys b)
  unfolding insert_sorted contains
  contains-insert_sorted x [] b = refl
  contains-insert_sorted x (y ∷ ys) b = ground (arith, contains-insert_sorted x ys b)

  pub contains-sort : (xs : List A) (b : A) → contains (sort xs) b ≡ contains xs b
  unfolding sort contains
  contains-sort [] b = refl
  contains-sort (x ∷ xs) b =
      ground (arith, contains-sort xs b, contains-insert_sorted x (sort xs) b)

  insert_sorted-IsAscending :
      (x : A) (ys : List A)
      → IsAscending ys
      → contains ys x ≡ false
      → IsAscending (insert_sorted x ys)
  unfolding insert_sorted contains
  insert_sorted-IsAscending x [] a h = (λ b p. cc, tt)
  insert_sorted-IsAscending x (y ∷ ys) a h = elim (Bool-cases (o.less y x)) [
    | inl after ↦ rw after (
      λ b p. ground (arith, contains-insert_sorted x ys b, e.test_iff b x, a.0 b),
      insert_sorted-IsAscending x ys a.1 (ground arith),
    )
    | inr before ↦
        let first : o.less x y ≡ true = ground (arith, o.connected x y, e.test_iff x y) in
        rw before (λ b p. ground (arith, e.test_iff b y, a.0 b, o.transitive x y b), a)
  ]

  DistinctFrom-absent :
      (before xs : List A) (a : A)
      → DistinctFrom before xs
      → contains before a ≡ true
      → contains xs a ≡ false
  unfolding contains
  DistinctFrom-absent before [] a d h = refl
  DistinctFrom-absent before (x ∷ xs) a d h = ground (
    arith,
    e.test_iff a x,
    contains-append before (x ∷ []) a,
    DistinctFrom-absent (before ++ x ∷ []) xs a d.1,
    d.0,
  )

  sort_from-IsAscending : (before xs : List A) → DistinctFrom before xs → IsAscending (sort xs)
  unfolding sort contains
  sort_from-IsAscending before [] d = tt
  sort_from-IsAscending before (x ∷ xs) d =
      insert_sorted-IsAscending x (sort xs) (sort_from-IsAscending (before ++ x ∷ []) xs d.1) (
        ground (
          arith,
          contains-sort xs x,
          DistinctFrom-absent (before ++ x ∷ []) xs x d.1,
          contains-append before (x ∷ []) x,
          e.test_iff x x,
        ))

  -- Distinct entries in order ascend strictly.
  pub sort-IsAscending : (xs : List A) → DistinctFrom [] xs → IsAscending (sort xs)
  sort-IsAscending xs = sort_from-IsAscending [] xs

  same_head :
      (x y : A) (xs ys : List A)
      → IsAscending (x ∷ xs)
      → IsAscending (y ∷ ys)
      → ((b : A) → contains (x ∷ xs) b ≡ contains (y ∷ ys) b)
      → x ≡ y
  unfolding contains
  same_head x y xs ys a a' h = ground (
    arith,
    e.test_iff x y,
    e.test_iff y x,
    e.test_iff x x,
    e.test_iff y y,
    h x,
    h y,
    a.0 y,
    a'.0 x,
    o.transitive x y x,
    o.irreflexive x,
  )

  same_tail :
      (x : A) (xs ys : List A)
      → IsAscending (x ∷ xs)
      → IsAscending (x ∷ ys)
      → ((b : A) → contains (x ∷ xs) b ≡ contains (x ∷ ys) b)
      → (b : A) → contains xs b ≡ contains ys b
  unfolding contains
  same_tail x xs ys a a' h b = ground (arith, e.test_iff b x, h b, a.0 x, a'.0 x, o.irreflexive x)

  -- A strictly ascending list is known by its entries.
  pub IsAscending-unique :
      (xs ys : List A)
      → IsAscending xs
      → IsAscending ys
      → ((b : A) → contains xs b ≡ contains ys b)
      → xs ≡ ys
  unfolding contains
  IsAscending-unique [] [] a a' h = refl
  IsAscending-unique [] (y ∷ ys) a a' h = absurd (ground (arith, h y, e.test_iff y y))
  IsAscending-unique (x ∷ xs) [] a a' h = absurd (ground (arith, h x, e.test_iff x x))
  IsAscending-unique (x ∷ xs) (y ∷ ys) a a' h =
      let s : y ≡ x = sym (same_head x y xs ys a a' h) in
      let b' : IsAscending (x ∷ ys) = subst (λ z. IsAscending (z ∷ ys)) s a' in
      let h' : (b : A) → contains (x ∷ xs) b ≡ contains (x ∷ ys) b =
        subst (λ z. (b : A) → contains (x ∷ xs) b ≡ contains (z ∷ ys) b) s h in
      rw s (ap (◌∷◌ x) (IsAscending-unique xs ys a.1 b'.1 (same_tail x xs ys a b' h')))

-- The order of Go's strings.
abbrev pub bytes_less : List ℕ → List ℕ → Bool
bytes_less xs [] = false
bytes_less [] (y ∷ ys) = true
bytes_less (x ∷ xs) (y ∷ ys) = ltb x y || (nat_beq x y && bytes_less xs ys)

pub bytes_less-irreflexive : (xs : List ℕ) → bytes_less xs xs ≡ false
bytes_less-irreflexive [] = refl
bytes_less-irreflexive (x ∷ xs) = ground (arith, bytes_less-irreflexive xs)

pub bytes_less-transitive :
    (xs ys zs : List ℕ)
    → bytes_less xs ys ≡ true
    → bytes_less ys zs ≡ true
    → bytes_less xs zs ≡ true
bytes_less-transitive xs ys [] p q = absurd (ground arith)
bytes_less-transitive xs [] (z ∷ zs) p q = absurd (ground arith)
bytes_less-transitive [] (y ∷ ys) (z ∷ zs) p q = refl
bytes_less-transitive (x ∷ xs) (y ∷ ys) (z ∷ zs) p q =
    ground (arith, bytes_less-transitive xs ys zs)

pub bytes_less-connected :
    (xs ys : List ℕ) → bytes_less xs ys ≡ false → bytes_less ys xs ≡ false → xs ≡ ys
bytes_less-connected [] [] p q = refl
bytes_less-connected [] (y ∷ ys) p q = absurd (ground arith)
bytes_less-connected (x ∷ xs) [] p q = absurd (ground arith)
bytes_less-connected (x ∷ xs) (y ∷ ys) p q = ground (arith, bytes_less-connected xs ys)

instance abbrev pub bytes_order : Order (List ℕ)
bytes_order = record {
  less = bytes_less;
  irreflexive = bytes_less-irreflexive;
  transitive = bytes_less-transitive;
  connected = bytes_less-connected;
}
