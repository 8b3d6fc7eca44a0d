-- ===== src/Cluster/Stats/Sums.antt =====
-- Sums of the counters of channels, as the code adds them up and as they are meant.
use nsq.Common.{
  ℕ, ◌+◌, ◌%◌, ◌^◌, ◌≡◌, arith, subst, refl, ap, List, [], ◌∷◌, ◌++◌, Option, none, some, nat_eq,
  bytes_eq,
}
use nsq.Cluster.Gather.{}
use nsq.Cluster.Stats.{Counters, ChannelStats, no_counters, add_counters}

-- The sum of some counters, from a sum of others.
abbrev pub sum_from : Counters → List Counters → Counters
sum_from c [] = c
sum_from c (a ∷ as') = sum_from (add_counters c a) as'

-- The sum, if there is anything to add up.
abbrev pub total_of : List Counters → Option Counters
total_of [] = none
total_of (a ∷ as') = some (sum_from no_counters (a ∷ as'))

abbrev pub counters_of : Option ChannelStats → Option Counters
counters_of none = none
counters_of (some c) = some c.counters

abbrev pub sum_of : (Counters → ℕ) → List Counters → ℕ
sum_of field [] = 0
sum_of field (a ∷ as') = field a + sum_of field as'

-- Each counter is a sum, as an int64.
pub record AreSums (as' : List Counters) (c : Counters) : Type 0 where
  pub depth : c.depth ≡ sum_of (λ a. a.depth) as' % 2 ^ 64
  pub memory_depth : c.memory_depth ≡ sum_of (λ a. a.memory_depth) as' % 2 ^ 64
  pub backend_depth : c.backend_depth ≡ sum_of (λ a. a.backend_depth) as' % 2 ^ 64
  pub in_flight_count : c.in_flight_count ≡ sum_of (λ a. a.in_flight_count) as' % 2 ^ 64
  pub deferred_count : c.deferred_count ≡ sum_of (λ a. a.deferred_count) as' % 2 ^ 64
  pub requeue_count : c.requeue_count ≡ sum_of (λ a. a.requeue_count) as' % 2 ^ 64
  pub timeout_count : c.timeout_count ≡ sum_of (λ a. a.timeout_count) as' % 2 ^ 64
  pub message_count : c.message_count ≡ sum_of (λ a. a.message_count) as' % 2 ^ 64
  pub client_count : c.client_count ≡ sum_of (λ a. a.client_count) as' % 2 ^ 64

-- The statistics of a key with the given counters; without any there are none.
abbrev pub IsTotal : List Counters → Option ChannelStats → Type 0
IsTotal [] o = o ≡ none
IsTotal (a ∷ as') none = ⊥
IsTotal (a ∷ as') (some c) = AreSums (a ∷ as') c.counters

module _ (field : Counters → ℕ)
    (adds : (c a : Counters) → field (add_counters c a) ≡ (field c + field a) % 2 ^ 64) where
  field-sum_from :
      (c a : Counters) (l : List Counters)
      → field (sum_from (add_counters c a) l) ≡ (field c + sum_of field (a ∷ l)) % 2 ^ 64
  field-sum_from c a [] = omega (arith, adds c a)
  field-sum_from c a (x ∷ l) = omega (arith, field-sum_from (add_counters c a) x l, adds c a)

  field-total :
      (a : Counters) (l : List Counters)
      → field no_counters ≡ 0
      → field (sum_from no_counters (a ∷ l)) ≡ sum_of field (a ∷ l) % 2 ^ 64
  field-total a l none' = omega (arith, field-sum_from no_counters a l, none')

sum_from-AreSums :
    (a : Counters) (l : List Counters) → AreSums (a ∷ l) (sum_from no_counters (a ∷ l))
unfolding add_counters
sum_from-AreSums a l = record {
  depth = field-total (λ x. x.depth) (λ x y. refl) a l refl;
  memory_depth = field-total (λ x. x.memory_depth) (λ x y. refl) a l refl;
  backend_depth = field-total (λ x. x.backend_depth) (λ x y. refl) a l refl;
  in_flight_count = field-total (λ x. x.in_flight_count) (λ x y. refl) a l refl;
  deferred_count = field-total (λ x. x.deferred_count) (λ x y. refl) a l refl;
  requeue_count = field-total (λ x. x.requeue_count) (λ x y. refl) a l refl;
  timeout_count = field-total (λ x. x.timeout_count) (λ x y. refl) a l refl;
  message_count = field-total (λ x. x.message_count) (λ x y. refl) a l refl;
  client_count = field-total (λ x. x.client_count) (λ x y. refl) a l refl;
}

pub total_of-IsTotal :
    (l : List Counters) (o : Option ChannelStats) → counters_of o ≡ total_of l → IsTotal l o
total_of-IsTotal [] none e = refl
total_of-IsTotal [] (some c) e = absurd (cc e)
total_of-IsTotal (a ∷ l) none e = cc e
total_of-IsTotal (a ∷ l) (some c) e =
    let same : sum_from no_counters (a ∷ l) ≡ c.counters = cc e in
    subst (λ x. AreSums (a ∷ l) x) same (sum_from-AreSums a l)

sum_from-last :
    (c a : Counters) (l : List Counters) → sum_from c (l ++ a ∷ []) ≡ add_counters (sum_from c l) a
sum_from-last c a [] = refl
sum_from-last c a (x ∷ l) = sum_from-last (add_counters c x) a l

-- Adding one channel to the statistics of its key.
unfoldable pub added : Counters → Option Counters → Option Counters
added a none = some (add_counters no_counters a)
added a (some c) = some (add_counters c a)

pub total_of-last :
    (a : Counters) (l : List Counters) → total_of (l ++ a ∷ []) ≡ added a (total_of l)
unfolding added
total_of-last a [] = refl
total_of-last a (x ∷ l) = ap some (sum_from-last (add_counters no_counters x) a l)
