-- ===== src/Cluster/AnyOrder.antt =====
-- The order of the answers does not matter to the names that a query reports.
use nsq.Common.{
  ℕ, ◌+◌, ◌≡◌, refl, sym, ap, ◌∙◌, ◌||◌, List, [], ◌∷◌, some, nat_eq, bytes_eq, length, arith,
}
use mathlib.Core.List.{Permᴰ}
use nsq.Stringy.{}
use nsq.Cluster.Sort.{bytes_order, IsAscending-unique}
use nsq.Cluster.Gather.{
  Answer, failed, answered, Gathered, none_answered, gathered, value, Names, get_lookupd_topics,
  get_lookupd_topic_channels, get_nsqd_topics, is_reported, failures,
}
use nsq.Cluster.Names.{IsReport, queries-IsReport}

module _ {E A : Type 0} where
  failures-cons :
      (a : Answer E A) (xs : List (Answer E A))
      → failures (a ∷ xs) ≡ failures (a ∷ []) + failures xs
  failures-cons (failed e) xs = omega arith
  failures-cons (answered x) xs = omega arith

  failures-Permᴰ :
      {xs ys : List (Answer E A)}
      → Permᴰ xs ys
      → (failures xs ≡ failures ys) × (length xs ≡ length ys)
  failures-Permᴰ Permᴰ.nil = (refl, refl)
  failures-Permᴰ (Permᴰ.cons {a} {b} {l₁ = xs} {l₂ = ys} e p) =
      let (f, l) = failures-Permᴰ p in
      let h : failures (a ∷ []) ≡ failures (b ∷ []) = ap (λ x. failures (x ∷ [])) e in
      (omega (arith, f, h, failures-cons a xs, failures-cons b ys), omega (arith, l))
  failures-Permᴰ (Permᴰ.swap {a} {b} {a'} {b'} {l} e e') =
      let h : failures (a ∷ []) ≡ failures (b' ∷ []) = ap (λ x. failures (x ∷ [])) e in
      let h' : failures (b ∷ []) ≡ failures (a' ∷ []) = ap (λ x. failures (x ∷ [])) e' in
      (
        omega (
          arith,
          h,
          h',
          failures-cons a (b ∷ l),
          failures-cons b l,
          failures-cons a' (b' ∷ l),
          failures-cons b' l,
        ),
        refl,
      )
  failures-Permᴰ (Permᴰ.trans p q) =
      let (f, l) = failures-Permᴰ p in let (f', l') = failures-Permᴰ q in (f ∙ f', l ∙ l')

module _ {E : Type 0} where
  is_reported-cons :
      (a : Answer E Names) (xs : List (Answer E Names)) (name : List ℕ)
      → is_reported (a ∷ xs) name ≡ (is_reported (a ∷ []) name || is_reported xs name)
  is_reported-cons (failed e) xs name = refl
  is_reported-cons (answered names) xs name = ground arith

  is_reported-Permᴰ :
      {xs ys : List (Answer E Names)}
      → Permᴰ xs ys
      → (name : List ℕ) → is_reported xs name ≡ is_reported ys name
  is_reported-Permᴰ Permᴰ.nil name = refl
  is_reported-Permᴰ (Permᴰ.cons {a} {b} {l₁ = xs} {l₂ = ys} e p) name =
      let h : is_reported (a ∷ []) name ≡ is_reported (b ∷ []) name =
        ap (λ x. is_reported (x ∷ []) name) e in
      is_reported-cons a xs name
      ∙ rw (h, is_reported-Permᴰ p name) refl
      ∙ sym (is_reported-cons b ys name)
  is_reported-Permᴰ (Permᴰ.swap {a} {b} {a'} {b'} {l} e e') name =
      let h : is_reported (a ∷ []) name ≡ is_reported (b' ∷ []) name =
        ap (λ x. is_reported (x ∷ []) name) e in
      let h' : is_reported (b ∷ []) name ≡ is_reported (a' ∷ []) name =
        ap (λ x. is_reported (x ∷ []) name) e' in
      ground (
        arith,
        h,
        h',
        is_reported-cons a (b ∷ l) name,
        is_reported-cons b l name,
        is_reported-cons a' (b' ∷ l) name,
        is_reported-cons b' l name,
      )
  is_reported-Permᴰ (Permᴰ.trans p q) name = is_reported-Permᴰ p name ∙ is_reported-Permᴰ q name

  same_value :
      (xs ys : List (Answer E Names)) (g g' : Gathered E Names)
      → failures xs ≡ failures ys
      → length xs ≡ length ys
      → ((name : List ℕ) → is_reported xs name ≡ is_reported ys name)
      → IsReport xs g
      → IsReport ys g'
      → value g ≡ value g'
  same_value xs ys (none_answered errs) (none_answered errs') f l h r r' = refl
  same_value xs ys (none_answered errs) (gathered names errs') f l h r r' =
      absurd (r'.0 (omega (arith, f, l, r.0)))
  same_value xs ys (gathered names errs) (none_answered errs') f l h r r' =
      absurd (r.0 (omega (arith, f, l, r'.0)))
  same_value xs ys (gathered names errs) (gathered names' errs') f l h r r' =
      ap some
        (IsAscending-unique names names' r.2 r'.2 (λ name. r.3 name ∙ h name ∙ sym (r'.3 name)))

-- The names that a query reports do not depend on the order in which the answers arrive, and neither
-- does whether it reports any.
pub queries-any_order :
    {E : Type 0} (xs ys : List (Answer E Names))
    → Permᴰ xs ys
    → (value (get_lookupd_topics xs) ≡ value (get_lookupd_topics ys))
      × (value (get_lookupd_topic_channels xs) ≡ value (get_lookupd_topic_channels ys))
      × (value (get_nsqd_topics xs) ≡ value (get_nsqd_topics ys))
queries-any_order {E} xs ys p =
    let (f, l) = failures-Permᴰ p in
    let same : (g g' : Gathered E Names) → IsReport xs g → IsReport ys g' → value g ≡ value g' =
      λ g g'. same_value xs ys g g' f l (is_reported-Permᴰ p) in
    let (r0, r1, r2) = queries-IsReport xs in
    let (q0, q1, q2) = queries-IsReport ys in
    (
      same (get_lookupd_topics xs) (get_lookupd_topics ys) r0 q0,
      same (get_lookupd_topic_channels xs) (get_lookupd_topic_channels ys) r1 q1,
      same (get_nsqd_topics xs) (get_nsqd_topics ys) r2 q2,
    )
