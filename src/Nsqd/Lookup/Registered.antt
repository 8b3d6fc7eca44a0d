-- ===== src/Nsqd/Lookup/Registered.antt =====
-- A new connection to an nsqlookupd: after the commands of connectCallback, nsqlookupd knows the nsqd
-- under all of its topics and channels.
use nsq.Common.{
  ℕ, ◌≡◌, refl, sym, ap, ◌∙◌, Bool, true, false, ◌&&◌, ◌||◌, List, [], ◌∷◌, ◌++◌, Option, none,
  some, ◌==◌, bytes_eq, bytes_beq, nat_eq, if◌then◌else◌, length, arith,
}
use mathlib.Core.List.{append_assoc, append-nil}
use nsq.Protocol.Names.{is_valid_name}
use nsq.Lookupd.Db.{Registration, registration_beq, Producer, registration}
use nsq.Lookupd.Db.Laws.{producer_at}
use nsq.Lookupd.Session.{
  Lookupd, Client, Json, Done, response, failed, ok_bytes, channel_category, producer_of,
  register_names, register, register_checked, get_topic_chan, names,
}
use nsq.Lookupd.Session.Cleanup.{has}
use nsq.Lookupd.Session.Identify.{exec, register_name}
use nsq.Nsqd.Daemon.{ChannelMap, TopicEntry}
use nsq.Nsqd.Lookup.{Command, register_channels, register_commands}
use nsq.Nsqd.Lookup as Cmd
use nsq.Nsqd.Lookup.Announce.{
  or_else, topic_key, channel_keys, announced, AreChannelNames, AreNames, IsWire, has-append, Knows,
  Knows-trans, Knows-agree, keys_of, register_names-Knows,
}

-- The commands of one connection, one after the other; `none` if one of them panics or is refused.
abbrev pub go_on : (Lookupd → Client → List ℕ → Option Lookupd) → Option Done → Option Lookupd
go_on rest none = none
go_on rest (some (d, client, input, failed err)) = none
go_on rest (some (d, client, input, response answer)) = rest d client input

unfoldable pub run :
    Json → (Command → List (List ℕ)) → Lookupd → Client → List ℕ → ℕ → List Command → Option Lookupd
run json params d client input now [] = some d
run json params d client input now (cmd ∷ cmds) =
    go_on (λ d' client' input'. run json params d' client' input' now cmds)
      (exec json d client input now (params cmd))

register-of :
    (json : Json) (d : Lookupd) (client : Client) (input : List ℕ) (now peer : ℕ)
    (args : List (List ℕ))
    → client.peer_info ≡ some peer
    → let r = register_checked d peer (get_topic_chan args) in
      exec json d client input now (register_name ∷ args) ≡ some (r.0, client, input, r.1)
unfolding exec register
register-of json d client input now peer args e = rw (e) refl

-- The names of a REGISTER: the channel may be left out.
AreRegistered : List ℕ → List ℕ → Type 0
AreRegistered topic name =
    (is_valid_name topic ≡ true) × ((name == []) || is_valid_name name ≡ true)

get_topic_chan-names :
    (topic name : List ℕ)
    → AreRegistered topic name
    → get_topic_chan (topic ∷ (if name == [] then [] else name ∷ [])) ≡ names topic name
unfolding get_topic_chan AreRegistered
get_topic_chan-names topic [] (t, n) = rw t refl
get_topic_chan-names topic (c ∷ name) (t, n) = rw (t, n) refl

or_else-none : (o : Option Producer) → or_else o none ≡ o
or_else-none none = refl
or_else-none (some p) = refl

or_else-nothing : (o : Option Producer) → o ≡ or_else o none
or_else-nothing o = sym (or_else-none o)

-- The keys of the commands for the channels of one topic.
with_topic : List ℕ → ChannelMap → List Registration
with_topic topic [] = []
with_topic topic ((name, c) ∷ m) = keys_of topic name ++ with_topic topic m

is_some_channel : ChannelMap → Bool
is_some_channel [] = false
is_some_channel (e ∷ m) = true

valid-not_empty : (name : List ℕ) → is_valid_name name ≡ true → (name == []) ≡ false
unfolding is_valid_name
valid-not_empty [] h = cc
valid-not_empty (c ∷ name) h = refl

has-keys_of :
    (topic name : List ℕ) (k : Registration)
    → is_valid_name name ≡ true
    → has (keys_of topic name) k ≡ (
        registration_beq (registration channel_category topic name) k
        || registration_beq (topic_key topic) k)
unfolding keys_of
has-keys_of topic name k h = rw (valid-not_empty name h) (ground arith)

has-with_topic :
    (topic : List ℕ) (m : ChannelMap) (k : Registration)
    → AreChannelNames m
    → has (with_topic topic m) k ≡ (
        (is_some_channel m && registration_beq (topic_key topic) k) || has (channel_keys topic m) k)
unfolding with_topic is_some_channel
has-with_topic topic [] k h = refl
has-with_topic topic ((name, c) ∷ m) k h =
    let a = registration_beq (registration channel_category topic name) k in
    let t = registration_beq (topic_key topic) k in
    let r = has (channel_keys topic m) k in
    has-append (keys_of topic name) (with_topic topic m) k
    ∙ ap (λ b. b || has (with_topic topic m) k) (has-keys_of topic name k h.0)
    ∙ ap (λ b. (a || t) || b) (has-with_topic topic m k h.1)
    ∙ merge a t (is_some_channel m) r
  where
    merge :
        (a t s r : Bool) → ((a || t) || ((s && t) || r)) ≡ ((true && t) || (if a then true else r))
    merge a t s r = ground arith

module _ (json : Json) (params : Command → List (List ℕ)) (wire : IsWire params) (client : Client)
    (input : List ℕ) (now peer : ℕ) (known : client.peer_info ≡ some peer) where
  -- The commands lead from `d` to a state that knows the peer under the keys.
  Reaches : Lookupd → List Command → List Registration → Type 0
  Reaches d cmds ks =
      (d' : Lookupd) × ((rest : List Command)
        → run json params d client input now (cmds ++ rest)
          ≡ run json params d' client input now rest)
      × Knows peer ks d d'

  Reaches-register :
      (d : Lookupd) (topic name : List ℕ)
      → AreRegistered topic name
      → Reaches d (Cmd.register topic name ∷ []) (keys_of topic name)
  unfolding Reaches run
  Reaches-register d topic name valid = (
    register_names d peer topic name,
    λ rest.
        let args = topic ∷ (if name == [] then [] else name ∷ []) in
        let line : exec json d client input now (params (Cmd.register topic name))
            ≡ some (register_names d peer topic name, client, input, response ok_bytes) =
          ap (exec json d client input now) (wire topic name)
          ∙ register-of json d client input now peer args known
          ∙ ap
              (λ t.
                some ((register_checked d peer t).0, client, input, (register_checked d peer t).1))
              (get_topic_chan-names topic name valid) in
        ap (go_on (λ d' client' input'. run json params d' client' input' now rest)) line,
    register_names-Knows d peer topic name,
  )

  Reaches-append :
      (d : Lookupd) (cs cs' : List Command) (js ks : List Registration)
      → Reaches d cs js
      → ((d' : Lookupd) → Reaches d' cs' ks)
      → Reaches d (cs ++ cs') (js ++ ks)
  unfolding Reaches
  Reaches-append d cs cs' js ks (d', r, k) h =
      let (d'', r', k') = h d' in
      (
        d'',
        λ rest.
            ap (run json params d client input now) (append_assoc cs cs' rest)
            ∙ r (cs' ++ rest)
            ∙ r' rest,
        Knows-trans peer js ks d d' d'' k k',
      )

  Reaches-agree :
      (d : Lookupd) (cs : List Command) (js ks : List Registration)
      → ((k : Registration) → has js k ≡ has ks k)
      → Reaches d cs js
      → Reaches d cs ks
  unfolding Reaches
  Reaches-agree d cs js ks same (d', r, k) = (d', r, Knows-agree peer js ks d d' same k)

  Reaches-channels :
      (d : Lookupd) (topic : List ℕ) (m : ChannelMap)
      → is_valid_name topic ≡ true
      → AreChannelNames m
      → Reaches d (register_channels topic m) (with_topic topic m)
  unfolding Reaches register_channels with_topic AreRegistered
  Reaches-channels d topic [] t h =
      (d, λ rest. refl, (refl, λ k id'. or_else-nothing (producer_at d.db k id')))
  Reaches-channels d topic ((name, c) ∷ m) t h =
      Reaches-append d (Cmd.register topic name ∷ []) (register_channels topic m)
        (keys_of topic name) (with_topic topic m)
        (Reaches-register d topic name (t, ground (arith, h.0)))
        (λ d'. Reaches-channels d' topic m t h.1)

  Reaches-topic :
      (d : Lookupd) (topic : List ℕ) (m : ChannelMap)
      → is_valid_name topic ≡ true
      → AreChannelNames m
      → Reaches d
          (if length m == 0 then Cmd.register topic [] ∷ [] else register_channels topic m)
          (topic_key topic ∷ channel_keys topic m)
  unfolding AreRegistered keys_of is_some_channel
  Reaches-topic d topic [] t h = Reaches-register d topic [] (t, refl)
  Reaches-topic d topic ((name, c) ∷ m) t h =
      let m' = (name, c) ∷ m in
      let some_left : (length m' == 0) ≡ false = ground arith in
      rw some_left (
        Reaches-agree d (register_channels topic m') (with_topic topic m')
          (topic_key topic ∷ channel_keys topic m')
          (λ k. ground (arith, has-with_topic topic ((name, c) ∷ m) k h))
          (Reaches-channels d topic m' t h))

  Reaches-topics :
      (d : Lookupd) (m : List (List ℕ × TopicEntry))
      → AreNames m
      → Reaches d (register_commands m) (announced m)
  unfolding Reaches register_commands
  Reaches-topics d [] h =
      (d, λ rest. refl, (refl, λ k id'. or_else-nothing (producer_at d.db k id')))
  Reaches-topics d ((name, t) ∷ m) h =
      Reaches-append d
        (if length t.channel_map == 0
          then Cmd.register name [] ∷ []
          else register_channels name t.channel_map)
        (register_commands m) (topic_key name ∷ channel_keys name t.channel_map) (announced m)
        (Reaches-topic d name t.channel_map h.0 h.1) (λ d'. Reaches-topics d' m h.2)

  -- When nsqlookupd splits the commands as go-nsq writes them, a client that has identified itself
  -- sends the commands of connectCallback, and all names of topics and channels are valid, none of
  -- them is refused or panics, and in the end, under every key and id, there is what was there
  -- before, or else, if the id is that of the client and the key is that of one of the topics or
  -- channels, its own producer.
  pub register_commands-announced :
      (d : Lookupd) (m : List (List ℕ × TopicEntry))
      → AreNames m
      → (d' : Lookupd) × (run json params d client input now (register_commands m) ≡ some d')
        × ((k : Registration) (id' : List ℕ)
            → producer_at d'.db k id'
              ≡ or_else (producer_at d.db k id') (
                  if has (announced m) k && bytes_beq (d.peers peer).id id'
                  then some (producer_of peer)
                  else none))
  unfolding Reaches run
  register_commands-announced d m h =
      let (d', r, k) = Reaches-topics d m h in
      (
        d',
        ap (run json params d client input now) (sym (append-nil (register_commands m))) ∙ r [],
        k.1,
      )
