-- ===== src/Tests/Connections.antt =====
-- A connection from nsqd to nsqlookupd.
use nsq.Common.{
  ℕ, ◌≡◌, refl, true, false, ◌&&◌, List, [], ◌∷◌, none, some, if◌then◌else◌, bytes_beq, ◌==◌,
  bytes_eq,
}
use nsq.Lookupd.Db.{Registration}
use nsq.Lookupd.Db.Laws.{producer_at}
use nsq.Lookupd.Session.{Lookupd, Client, Json, blank_peer, producer_of}
use nsq.Lookupd.Session.Cleanup.{has}
use nsq.Lookupd.Session.Identify.{register_name, ping_name}
use nsq.Protocol.Names.{is_valid_name, is_ephemeral, matches_name, matches_rest, is_name_byte}
use nsq.Nsqd.Daemon.{TopicEntry}
use nsq.Nsqd.Lookup.{
  Command, identify, ping, register, un_register, register_commands, Network, Peer, command,
  new_lookup_peer,
}
use nsq.Nsqd.Lookup.Settles.{IsSettled, command-IsSettled}
use nsq.Nsqd.Lookup.Announce.{IsWire, or_else, announced}
use nsq.Nsqd.Lookup.Registered.{run, register_commands-announced}

-- Everything succeeds until an answer is read.
abbrev silent : Network ℕ
silent = record {
  dial = λ w addr. (w, true);
  write_magic = λ w. (w, true);
  write_command = λ w cmd. (w, true);
  read = λ w n. (w, none);
  close_conn = λ w. w;
  unmarshal = λ bytes. none;
}

abbrev new_peer : Peer ℕ
new_peer = record { lp = new_lookup_peer []; world = 0 }

command-IsSettled_example :
    IsSettled
      (command silent 100 [] new_peer (some ping)).0.lp
      (command silent 100 [] new_peer (some ping)).1
unfolding new_lookup_peer
command-IsSettled_example = command-IsSettled silent 100 [] new_peer (some ping) λ e. cc

-- What nsqlookupd splits a command into.
abbrev words : Command → List (List ℕ)
words identify = []
words ping = ping_name ∷ []
words (register topic name) = register_name ∷ topic ∷ (if name == [] then [] else name ∷ [])
words (un_register topic name) = []

words-IsWire : IsWire words
words-IsWire topic name = refl

abbrev topics : List (List ℕ × TopicEntry)
topics =
    (
      b'a' ∷ [],
      record {
        channel_map = (b'c' ∷ [], record { paused = false; ephemeral = false }) ∷ [];
        paused = false;
        ephemeral = false;
        started = true;
      },
    )
    ∷ []

abbrev empty_lookupd : Lookupd
empty_lookupd = record {
  db = record { registration_map = [] };
  peers = λ x. blank_peer (b'h' ∷ []);
  next_peer = 1;
}

abbrev identified : Client
identified = record { peer_info = some 0; remote_address = [] }

abbrev strict : Json
strict = record { unmarshal = λ bytes p. none; answer = [] }

register_commands-announced_example :
    (d' : Lookupd) × (run strict words empty_lookupd identified [] 5 (register_commands topics)
      ≡ some d')
    × ((k : Registration) (id' : List ℕ)
        → producer_at d'.db k id'
          ≡ or_else (producer_at empty_lookupd.db k id') (
              if has (announced topics) k && bytes_beq (b'h' ∷ []) id'
              then some (producer_of 0)
              else none))
unfolding is_valid_name matches_name matches_rest is_name_byte is_ephemeral
register_commands-announced_example =
    register_commands-announced strict words words-IsWire identified [] 5 0 refl empty_lookupd
      topics ((refl, (refl, tt), tt))
