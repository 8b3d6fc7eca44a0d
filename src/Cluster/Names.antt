-- ===== src/Cluster/Names.antt =====
-- The names that a query reports.
use nsq.Common.{
  ℕ, ◌+◌, ◌≡◌, ◌≢◌, refl, ◌∙◌, ◌||◌, List, [], ◌∷◌, ◌++◌, ◌==◌, nat_eq, bytes_eq, length,
  length-append, arith, Bool-cases, inl, inr,
}
use nsq.Stringy.{
  contains, add, union, uniq, DistinctFrom, contains-append, contains-union, union-distinct,
  uniq_lem,
}
use nsq.Cluster.Sort.{sort, bytes_order, IsAscending, sort-IsAscending, contains-sort}
use nsq.Cluster.Gather.{
  Answer, failed, answered, Gathered, none_answered, gathered, collect, conclude, Names,
  get_lookupd_topics, get_lookupd_topic_channels, add_each, get_nsqd_topics, is_reported, failures,
}

module _ {E A S : Type 0} (absorb : S → A → S) where
  pub length-collect :
      (s : S) (errs : List E) (answers : List (Answer E A))
      → length (collect absorb s errs answers).1 ≡ length errs + failures answers
  unfolding collect
  length-collect s errs [] = omega arith
  length-collect s errs (failed e ∷ answers) =
      omega (arith, length-collect s (errs ++ e ∷ []) answers, length-append errs (e ∷ []))
  length-collect s errs (answered a ∷ answers) = length-collect (absorb s a) errs answers

module _ {E : Type 0} (absorb : Names → Names → Names)
    (grows : (s names : Names) (b : List ℕ)
      → contains (absorb s names) b ≡ (contains s b || contains names b)) where
  pub contains-collect :
      (s : Names) (errs : List E) (answers : List (Answer E Names)) (b : List ℕ)
      → contains (collect absorb s errs answers).0 b ≡ (contains s b || is_reported answers b)
  unfolding collect
  contains-collect s errs [] b = ground arith
  contains-collect s errs (failed e ∷ answers) b = contains-collect s (errs ++ e ∷ []) answers b
  contains-collect s errs (answered names ∷ answers) b =
      ground (arith, contains-collect (absorb s names) errs answers b, grows s names b)

pub add_each-union : (s names : Names) → add_each s names ≡ union s names
unfolding add_each union add
add_each-union s [] = refl
add_each-union s (name ∷ names) = add_each-union (add s name) names

pub distinct-add_each :
    {E : Type 0} (s : Names) (errs : List E) (answers : List (Answer E Names))
    → DistinctFrom [] s
    → DistinctFrom [] (collect add_each s errs answers).0
unfolding collect
distinct-add_each s errs [] d = d
distinct-add_each s errs (failed e ∷ answers) d = distinct-add_each s (errs ++ e ∷ []) answers d
distinct-add_each s errs (answered names ∷ answers) d =
    distinct-add_each (add_each s names) errs answers
      (rw (add_each-union s names) (union-distinct s names d))

-- A result of `answers` that is fixed by what they report and by how many of them failed.
abbrev pub IsReport : {E : Type 0} → List (Answer E Names) → Gathered E Names → Type 0
IsReport answers (none_answered errs) =
    (failures answers ≡ length answers) × (length errs ≡ failures answers)
IsReport answers (gathered names errs) =
    (failures answers ≢ length answers)
    × (length errs ≡ failures answers)
    × IsAscending names
    × ((b : List ℕ) → contains names b ≡ is_reported answers b)

conclude-IsReport :
    {E : Type 0} (answers : List (Answer E Names)) (names : Names) (errs : List E)
    → length errs ≡ failures answers
    → IsAscending names
    → ((b : List ℕ) → contains names b ≡ is_reported answers b)
    → IsReport answers (conclude (length answers) names errs)
conclude-IsReport answers names errs n a h = elim (Bool-cases (length errs == length answers)) [
  | inl all_failed ↦ rw all_failed (ground arith, n)
  | inr some_answered ↦
      rw some_answered ((λ (e : failures answers ≡ length answers). ground arith), n, a, h)
]

lookupd_topics-IsReport :
    {E : Type 0} (answers : List (Answer E Names)) → IsReport answers (get_lookupd_topics answers)
unfolding get_lookupd_topics contains
lookupd_topics-IsReport {E} answers =
    let append : Names → Names → Names = λ topics resp. topics ++ resp in
    let no_errs : List E = [] in
    let topics = (collect append [] no_errs answers).0 in
    conclude-IsReport answers (sort (uniq topics)) (collect append [] [] answers).1
      (omega (arith, length-collect append [] no_errs answers))
      (sort-IsAscending (uniq topics) (uniq_lem topics).1)
      (λ b.
        contains-sort (uniq topics) b
        ∙ (uniq_lem topics).0 b
        ∙ contains-collect append contains-append [] [] answers b)

lookupd_topic_channels-topics :
    {E : Type 0} (answers : List (Answer E Names))
    → get_lookupd_topic_channels answers ≡ get_lookupd_topics answers
unfolding get_lookupd_topics get_lookupd_topic_channels
lookupd_topic_channels-topics answers = refl

nsqd_topics-IsReport :
    {E : Type 0} (answers : List (Answer E Names)) → IsReport answers (get_nsqd_topics answers)
unfolding get_nsqd_topics contains
nsqd_topics-IsReport {E} answers =
    let no_errs : List E = [] in
    let topics = (collect add_each [] no_errs answers).0 in
    conclude-IsReport answers (sort topics) (collect add_each [] [] answers).1
      (omega (arith, length-collect add_each [] no_errs answers))
      (sort-IsAscending topics (distinct-add_each [] [] answers tt))
      (λ b.
        contains-sort topics b
        ∙ contains-collect add_each
            (λ s names b'. rw (add_each-union s names) (contains-union s names b')) [] [] answers b)

-- Each of the three queries for names ends with the error "Failed to query any" exactly if all
-- addresses failed; otherwise it reports, in strictly ascending order, exactly the names that some
-- address answered with. In both cases it gives as many errors as addresses failed.
pub queries-IsReport :
    {E : Type 0} (answers : List (Answer E Names))
    → IsReport answers (get_lookupd_topics answers)
      × IsReport answers (get_lookupd_topic_channels answers)
      × IsReport answers (get_nsqd_topics answers)
queries-IsReport answers = (
  lookupd_topics-IsReport answers,
  rw (lookupd_topic_channels-topics answers) (lookupd_topics-IsReport answers),
  nsqd_topics-IsReport answers,
)
