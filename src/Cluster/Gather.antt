-- ===== src/Cluster/Gather.antt =====
-- internal/clusterinfo/data.go: the queries for names of topics and channels. A query starts one
-- goroutine for each address and waits for all of them; what they do with an answer is done under a
-- lock, so that a query is a function of the answers, one for each address, in the order in which
-- they take the lock. The HTTP client that gives the answers is not modelled.
use nsq.Common.{
  ℕ, ◌+◌, Bool, false, ◌||◌, List, [], ◌∷◌, ◌++◌, Option, none, some, ◌==◌, nat_eq, bytes_eq,
  if◌then◌else◌, length,
}
use nsq.Stringy.{contains, add, uniq}
use nsq.Cluster.Sort.{sort, bytes_order}

-- What a GET of one address gives; E are its errors.
pub data Answer (E A : Type 0) : Type 0 where
  failed : E → Answer E A
  answered : A → Answer E A

-- What a query returns: the error "Failed to query any", or a value with the errors of the
-- addresses that failed, which is a PartialErr if there are any and nil if there are none.
pub data Gathered (E A : Type 0) : Type 0 where
  none_answered : List E → Gathered E A
  gathered : A → List E → Gathered E A

module _ {E A S : Type 0} where
  -- The goroutines, in the order of their answers.
  unfoldable pub collect : (S → A → S) → S → List E → List (Answer E A) → S × List E
  collect absorb s errs [] = (s, errs)
  collect absorb s errs (failed e ∷ answers) = collect absorb s (errs ++ e ∷ []) answers
  collect absorb s errs (answered a ∷ answers) = collect absorb (absorb s a) errs answers

module _ {E A : Type 0} where
  -- The end of a query of `n` addresses.
  abbrev pub conclude : ℕ → A → List E → Gathered E A
  conclude n a errs = if length errs == n then none_answered errs else gathered a errs

  -- The value of a query, if one address answered at least.
  abbrev pub value : Gathered E A → Option A
  value (none_answered errs) = none
  value (gathered a errs) = some a

abbrev pub Names : Type 0
Names = List (List ℕ)

-- The loop over the topics of one nsqd.
unfoldable pub add_each : Names → Names → Names
add_each topics [] = topics
add_each topics (name ∷ names) = add_each (add topics name) names

module _ {E : Type 0} where
  unfoldable pub get_lookupd_topics : List (Answer E Names) → Gathered E Names
  get_lookupd_topics answers =
      let (topics, errs) = collect (λ topics resp. topics ++ resp) [] [] answers in
      conclude (length answers) (sort (uniq topics)) errs

  unfoldable pub get_lookupd_topic_channels : List (Answer E Names) → Gathered E Names
  get_lookupd_topic_channels answers =
      let (channels, errs) = collect (λ channels resp. channels ++ resp) [] [] answers in
      conclude (length answers) (sort (uniq channels)) errs

  unfoldable pub get_nsqd_topics : List (Answer E Names) → Gathered E Names
  get_nsqd_topics answers =
      let (topics, errs) = collect add_each [] [] answers in
      conclude (length answers) (sort topics) errs

module _ {E : Type 0} where
  -- Some address answered with the name.
  abbrev pub is_reported : List (Answer E Names) → List ℕ → Bool
  is_reported [] b = false
  is_reported (failed e ∷ answers) b = is_reported answers b
  is_reported (answered names ∷ answers) b = contains names b || is_reported answers b

module _ {E A : Type 0} where
  abbrev pub failures : List (Answer E A) → ℕ
  failures [] = 0
  failures (failed e ∷ answers) = 1 + failures answers
  failures (answered a ∷ answers) = failures answers
