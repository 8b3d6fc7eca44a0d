-- ===== src/Cluster/Stats/Totals.antt =====
-- The statistics of a channel are the sums over the nsqds.
use nsq.Common.{
  ℕ, ◌≡◌, ◌≢◌, arith, refl, sym, ap, ◌∙◌, not, ◌&&◌, List, [], ◌∷◌, ◌++◌, Option, none, some, ◌==◌,
  nat_eq, bytes_eq, bytes_beq_iff, if◌then◌else◌, length, Bool-cases, inl, inr,
}
use mathlib.Core.List.{append_assoc, append-nil}
use nsq.Common.Map.{lookup, insert, lookup-insert, lookup-nil}
use nsq.Cluster.Gather.{
  Answer, failed, answered, Gathered, none_answered, gathered, collect, failures,
}
use nsq.Cluster.Names.{length-collect}
use nsq.Cluster.Stats.{
  Counters, ChannelStats, TopicStats, NodeStats, StatsMap, add_stats, minus, new_stats, stats_key,
  channel_from, topic_from, or_new, add_channels, add_topics, absorb_stats, get_nsqd_stats,
}
use nsq.Cluster.Stats.Sums.{total_of, counters_of, IsTotal, total_of-IsTotal, added, total_of-last}

module _ (selected_topic key : List ℕ) where
  -- The key under which a channel counts.
  abbrev pub named : List ℕ → List ℕ → List ℕ
  named topic channel = if selected_topic == [] then topic ++ b':' ∷ channel else channel

  -- The counters that the channels of a topic, some topics and the answers hold for the key.
  abbrev pub in_channels : List ℕ → List ℕ → List ℕ → List ChannelStats → List Counters
  in_channels addr hostname topic [] = []
  in_channels addr hostname topic (c ∷ cs) =
      (if named topic c.channel_name == key
        then record (c.counters) { memory_depth = minus c.counters.depth c.counters.backend_depth }
          ∷ []
        else [])
      ++ in_channels addr hostname topic cs

  abbrev pub in_topics : List ℕ → List ℕ → List TopicStats → List Counters
  in_topics addr hostname [] = []
  in_topics addr hostname (t ∷ ts) =
      (if not (selected_topic == []) && not (t.topic_name == selected_topic)
        then []
        else in_channels addr hostname t.topic_name t.channels)
      ++ in_topics addr hostname ts

  abbrev pub in_answers : {E : Type 0} → List (Answer E NodeStats) → List Counters
  in_answers [] = []
  in_answers (failed e ∷ answers) = in_answers answers
  in_answers (answered n ∷ answers) = in_topics n.addr n.hostname n.topics ++ in_answers answers

-- The map holds the totals of the counters that were reported for each key.
HasTotals : StatsMap → (List ℕ → List Counters) → Type 0
HasTotals m r = (key : List ℕ) → counters_of (lookup key m) ≡ total_of (r key)

counters_of-added :
    (addr topic name : List ℕ) (a : ChannelStats) (o : Option ChannelStats)
    → some (add_stats (or_new (new_stats addr topic name) o) a).counters
      ≡ added a.counters (counters_of o)
unfolding added add_stats
counters_of-added addr topic name a none = refl
counters_of-added addr topic name a (some c) = refl

module _ (selected_topic addr hostname : List ℕ) where
  insert-HasTotals :
      (topic k : List ℕ) (m : StatsMap) (a : ChannelStats) (name : List ℕ)
      (r : List ℕ → List Counters)
      → HasTotals m r
      → HasTotals
          (insert k (add_stats (or_new (new_stats addr topic name) (lookup k m)) a) m)
          (λ key. r key ++ (if k == key then a.counters ∷ [] else []))
  unfolding HasTotals
  insert-HasTotals topic k m a name r h key =
      let v = add_stats (or_new (new_stats addr topic name) (lookup k m)) a in
      ap counters_of (lookup-insert k key v m) ∙ elim (Bool-cases (k == key)) [
        | inl same ↦
            let e = (bytes_beq_iff k key).0 same in
            rw same (
              counters_of-added addr topic name a (lookup k m)
              ∙ ap (added a.counters) (h k)
              ∙ sym (total_of-last a.counters (r k))
              ∙ ap (λ j. total_of (r j ++ a.counters ∷ [])) e)
        | inr other ↦ rw (other, append-nil (r key)) (h key)
      ]

  add_channels-HasTotals :
      (topic : List ℕ) (m : StatsMap) (cs : List ChannelStats) (r : List ℕ → List Counters)
      → HasTotals m r
      → HasTotals
          (add_channels selected_topic addr hostname topic m cs)
          (λ key. r key ++ in_channels selected_topic key addr hostname topic cs)
  unfolding HasTotals add_channels stats_key
  add_channels-HasTotals topic m [] r h key = rw (append-nil (r key)) (h key)
  add_channels-HasTotals topic m (c ∷ cs) r h key =
      let a = channel_from addr hostname topic c in
      let k = stats_key selected_topic topic c.channel_name in
      let v = add_stats (or_new (new_stats addr topic c.channel_name) (lookup k m)) a in
      let here : List ℕ → List Counters = λ j. if k == j then a.counters ∷ [] else [] in
      add_channels-HasTotals topic (insert k v m) cs (λ j. r j ++ here j)
        (insert-HasTotals topic k m a c.channel_name r h) key
      ∙ ap total_of
          (append_assoc (r key) (here key) (in_channels selected_topic key addr hostname topic cs))

  add_topics-HasTotals :
      (ts : List TopicStats) (topics : List TopicStats) (m : StatsMap) (r : List ℕ → List Counters)
      → HasTotals m r
      → HasTotals
          (add_topics selected_topic addr hostname (topics, m) ts).1
          (λ key. r key ++ in_topics selected_topic key addr hostname ts)
  unfolding HasTotals add_topics
  add_topics-HasTotals [] topics m r h key = rw (append-nil (r key)) (h key)
  add_topics-HasTotals (t ∷ ts) topics m r h key =
      elim (Bool-cases (not (selected_topic == []) && not (t.topic_name == selected_topic))) [
        | inl skipped ↦ rw skipped (add_topics-HasTotals ts topics m r h key)
        | inr kept ↦
            let cs = t.channels in
            let here : List ℕ → List Counters =
              λ j. in_channels selected_topic j addr hostname t.topic_name cs in
            rw kept (
              add_topics-HasTotals ts (topics ++ topic_from addr hostname t ∷ [])
                (add_channels selected_topic addr hostname t.topic_name m cs) (λ j. r j ++ here j)
                (add_channels-HasTotals t.topic_name m cs r h) key
              ∙ ap total_of
                  (append_assoc (r key) (here key) (in_topics selected_topic key addr hostname ts)))
      ]

module _ {E : Type 0} (selected_topic : List ℕ) where
  collect-HasTotals :
      (answers : List (Answer E NodeStats)) (topics : List TopicStats) (m : StatsMap)
      (errs : List E) (r : List ℕ → List Counters)
      → HasTotals m r
      → HasTotals
          (collect (absorb_stats selected_topic) (topics, m) errs answers).0.1
          (λ key. r key ++ in_answers selected_topic key answers)
  unfolding HasTotals collect absorb_stats
  collect-HasTotals [] topics m errs r h key = rw (append-nil (r key)) (h key)
  collect-HasTotals (failed e ∷ answers) topics m errs r h key =
      collect-HasTotals answers topics m (errs ++ e ∷ []) r h key
  collect-HasTotals (answered n ∷ answers) topics m errs r h key =
      let s = add_topics selected_topic n.addr n.hostname (topics, m) n.topics in
      let here : List ℕ → List Counters =
        λ j. in_topics selected_topic j n.addr n.hostname n.topics in
      collect-HasTotals answers s.0 s.1 errs (λ j. r j ++ here j)
        (add_topics-HasTotals selected_topic n.addr n.hostname n.topics topics m r h) key
      ∙ ap total_of (append_assoc (r key) (here key) (in_answers selected_topic key answers))

  abbrev pub AreTotals :
      List (Answer E NodeStats) → Gathered E (List TopicStats × StatsMap) → Type 0
  AreTotals answers (none_answered errs) =
      (failures answers ≡ length answers) × (length errs ≡ failures answers)
  AreTotals answers (gathered (topics, m) errs) =
      (failures answers ≢ length answers)
      × (length errs ≡ failures answers)
      × ((key : List ℕ) → IsTotal (in_answers selected_topic key answers) (lookup key m))

  -- GetNSQDStats fails exactly if all nsqds do, and gives as many errors as nsqds failed. Otherwise
  -- it returns statistics for exactly the keys of the channels that the answers hold, of the
  -- selected topic if there is one, and each of their nine counters is the sum over these channels
  -- modulo 2 ^ 64, the depth in memory taken as the depth without the backend's.
  pub nsqd_stats-AreTotals :
      (answers : List (Answer E NodeStats))
      → AreTotals answers (get_nsqd_stats selected_topic answers)
  unfolding get_nsqd_stats HasTotals
  nsqd_stats-AreTotals answers =
      let no_errs : List E = [] in
      let no_topics : List TopicStats = [] in
      let no_stats : StatsMap = [] in
      let absorb = absorb_stats selected_topic in
      let r = collect absorb (no_topics, no_stats) no_errs answers in
      let n : length r.1 ≡ failures answers =
        omega (arith, length-collect absorb (no_topics, no_stats) no_errs answers) in
      elim (Bool-cases (length r.1 == length answers)) [
        | inl all_failed ↦ rw all_failed (ground arith, n)
        | inr some_answered ↦ rw some_answered (
          (λ (e : failures answers ≡ length answers). ground arith),
          n,
          λ key. total_of-IsTotal (in_answers selected_topic key answers) (lookup key r.0.1) (
              collect-HasTotals answers no_topics no_stats no_errs (λ k. [])
                (λ k. ap counters_of (lookup-nil {V = ChannelStats} k)) key),
        )
      ]
