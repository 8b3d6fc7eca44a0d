-- ===== src/Nsqd/Http.antt =====
-- nsqd/http.go: the handlers of producers and of administration, over Nsqd/Daemon and the queue of a
-- topic in Nsqd/Publish. A request is what its query gives for each key, or nothing when the query
-- cannot be read, and its body, which is read without an error. Statistics,
-- configuration, routing and pprof are not modelled.
pub mod Lines
use nsq.Common.{
  ℕ, zero, suc, ◌+◌, ◌-◌, ◌%◌, ◌^◌, ◌<◌, Bool, true, false, not, ◌&&◌, ◌||◌, List, [], ◌∷◌, ◌++◌,
  Option, none, some, ltb, leb, if◌then◌else◌, ◌==◌, nat_eq, bytes_eq, length, take,
}
use nsq.Common.Map.{lookup, insert}
use nsq.Protocol.Names.{is_valid_name}
use nsq.Protocol.Reader.{negative64}
use nsq.Nsqd.Message.{Message, new_message}
use nsq.Nsqd.Channel.{BackendQueue}
use nsq.Nsqd.Commands.{milliseconds}
use nsq.Nsqd.Publish.{Topic, TopicOutcome, put_message, put_messages, empty_topic}
use nsq.Nsqd.Daemon.{
  ChannelEntry, TopicEntry, Daemon, TopicMeta, get_topic, get_existing_topic, delete_existing_topic,
  get_channel, get_existing_channel, delete_existing_channel, do_pause, persist_metadata,
}

pub data HttpErr : Type 0 where
  invalid_request missing_arg_topic invalid_arg_topic invalid_topic missing_arg_channel
        invalid_arg_channel topic_not_found channel_not_found msg_too_big msg_empty body_too_big
        invalid_defer exiting internal_error :
      HttpErr

pub data Answer (A : Type 0) : Type 0 where
  done : A → Answer A
  failed : HttpErr → Answer A

abbrev pub Query : Type 0
Query = List (List ℕ × List ℕ)

abbrev pub topic_key : List ℕ
topic_key = b't' ∷ b'o' ∷ b'p' ∷ b'i' ∷ b'c' ∷ []

abbrev pub channel_key : List ℕ
channel_key = b'c' ∷ b'h' ∷ b'a' ∷ b'n' ∷ b'n' ∷ b'e' ∷ b'l' ∷ []

abbrev pub defer_key : List ℕ
defer_key = b'd' ∷ b'e' ∷ b'f' ∷ b'e' ∷ b'r' ∷ []

abbrev pub or_fail : {A : Type 0} → HttpErr → Option A → Answer A
or_fail e none = failed e
or_fail e (some a) = done a

abbrev pub and_then : {A C : Type 0} → Answer A → (A → Answer C) → Answer C
and_then (failed e) f = failed e
and_then (done a) f = f a

abbrev pub checked : HttpErr → List ℕ → Answer (List ℕ)
checked e name = if is_valid_name name then done name else failed e

-- GetTopicChannelArgs
unfoldable pub topic_channel_args : Query → Answer (List ℕ × List ℕ)
topic_channel_args q = and_then (or_fail missing_arg_topic (lookup topic_key q)) λ topic.
    and_then (checked invalid_arg_topic topic) λ topic.
      and_then (or_fail missing_arg_channel (lookup channel_key q))
        λ channel. and_then (checked invalid_arg_channel channel) λ channel. done (topic, channel)

-- The topic by its name and entry, and the name of the channel.
unfoldable pub get_existing_topic_from_query :
    Daemon → Option Query → Answer (List ℕ × TopicEntry × List ℕ)
get_existing_topic_from_query n q = and_then (or_fail invalid_request q) λ p.
    and_then (topic_channel_args p) λ (topic, channel).
      and_then (or_fail topic_not_found (get_existing_topic n topic)) λ t. done (topic, t, channel)

-- The daemon, in which the topic may be new, and the name of the topic.
unfoldable pub get_topic_from_query :
    Daemon → Option Query → List (List ℕ) → Answer (Daemon × List ℕ)
get_topic_from_query n q known = and_then (or_fail invalid_request q) λ p.
    and_then (or_fail missing_arg_topic (lookup topic_key p))
      λ topic. and_then (checked invalid_topic topic) λ topic. done (get_topic n topic known, topic)

abbrev pub set_topic : Daemon → List ℕ → TopicEntry → Daemon
set_topic n topic t = record n { topic_map = insert topic t n.topic_map }

unfoldable pub do_create_topic : Daemon → Option Query → List (List ℕ) → Answer Daemon
do_create_topic n q known = and_then (get_topic_from_query n q known) λ (n', topic). done n'

unfoldable pub do_delete_topic : Daemon → Option Query → Answer Daemon
do_delete_topic n q = and_then (or_fail invalid_request q) λ p.
    and_then (or_fail missing_arg_topic (lookup topic_key p))
      λ topic. or_fail topic_not_found (delete_existing_topic n topic)

-- The flag says whether the path is that of pause; the metadata is written at once.
unfoldable pub do_pause_topic : Daemon → Option Query → Bool → Answer (Daemon × List TopicMeta)
do_pause_topic n q pause = and_then (or_fail invalid_request q) λ p.
    and_then (or_fail missing_arg_topic (lookup topic_key p)) λ topic.
      and_then (or_fail topic_not_found (get_existing_topic n topic))
        λ t. let n' = set_topic n topic (do_pause t pause) in done (n', persist_metadata n')

unfoldable pub do_create_channel : Daemon → Option Query → Answer Daemon
do_create_channel n q =
    and_then (get_existing_topic_from_query n q)
      λ (topic, t, channel). done (set_topic n topic (get_channel t channel))

-- The flag of the result says whether the topic is going to be deleted.
unfoldable pub do_delete_channel : Daemon → Option Query → Answer (Daemon × Bool)
do_delete_channel n q = and_then (get_existing_topic_from_query n q) λ (topic, t, channel).
    and_then (or_fail channel_not_found (delete_existing_channel t channel))
      λ (t', last). done (set_topic n topic t', last)

unfoldable pub do_pause_channel : Daemon → Option Query → Bool → Answer (Daemon × List TopicMeta)
do_pause_channel n q pause = and_then (get_existing_topic_from_query n q) λ (topic, t, channel).
    and_then (or_fail channel_not_found (get_existing_channel t channel)) λ c.
      let paused = insert channel (record c { paused = pause }) t.channel_map in
      let n' = set_topic n topic (record t { channel_map = paused }) in
      done (n', persist_metadata n')

-- The body as doPUB reads it: at most one byte more than a message may have.
unfoldable pub pub_body : ℕ → List ℕ → Answer (List ℕ)
pub_body max_msg_size input =
    let body = take (max_msg_size + 1) input in
    if length body == max_msg_size + 1
    then failed msg_too_big
    else if length body == 0
    then failed msg_empty
    else done body

-- `parse_int` is strconv.ParseInt, to a 64-bit pattern.
unfoldable pub pub_defer : (List ℕ → Option ℕ) → ℕ → Option (List ℕ) → Answer ℕ
pub_defer parse_int max_req_timeout none = done 0
pub_defer parse_int max_req_timeout (some text) =
    and_then (or_fail invalid_defer (parse_int text)) λ di.
      let deferred = milliseconds di in
      if negative64 deferred || ltb max_req_timeout deferred
      then failed invalid_defer
      else done deferred

abbrev pub or_exiting : {B E : Type 0} → TopicOutcome B E → Answer (Topic B)
or_exiting (t, none) = done t
or_exiting (t, some e) = failed exiting

module _ {B E : Type 0} (backend_queue : BackendQueue B E) (topics : List ℕ → Topic B) where
  -- `length_given` is the header Content-Length, 0 if there is none.
  unfoldable pub do_pub :
      (List ℕ → Option ℕ)
      → ℕ
      → ℕ
      → Daemon
      → Option Query
      → List (List ℕ)
      → ℕ
      → List ℕ
      → List ℕ
      → ℕ
      → Answer (Daemon × Topic B)
  do_pub parse_int max_msg_size max_req_timeout n q known length_given input id now =
      let asked : Option (List ℕ) = elim q as (λ _. Option (List ℕ)) [
        | none ↦ none
        | some p ↦ lookup defer_key p
      ] in
      let answer = and_then (pub_body max_msg_size input) λ body.
        and_then (get_topic_from_query n q known) λ (n', topic).
          and_then (pub_defer parse_int max_req_timeout asked) λ deferred.
            let m : Message = record (new_message id body now) { deferred = deferred } in
            and_then (or_exiting (put_message backend_queue (topics topic) m)) λ t. done (n', t) in
      if ltb max_msg_size length_given then failed msg_too_big else answer
