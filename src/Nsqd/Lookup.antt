-- ===== src/Nsqd/Lookup.antt =====
-- nsqd/lookup.go and nsqd/lookup_peer.go: how nsqd tells the nsqlookupds which topics and channels it
-- has. A connection, the commands of go-nsq and the decoding of an answer are parameters; a command
-- is what the code builds it from. The map of topics is that of Nsqd/Daemon, in the order in which
-- the loops meet its entries.
pub mod Settles
pub mod Announce
pub mod Registered
use nsq.Common.{
  ℕ, ◌≡◌, Bool, true, false, not, List, [], ◌∷◌, ◌++◌, Option, none, some, Eq, ◌==◌, nat_eq,
  bytes_eq, if◌then◌else◌, length, ltb,
}
use nsq.Common.Bytes.{from_be}
use nsq.Common.Decimal.{itoa}
use nsq.Cluster.Producers.{join_host_port}
use nsq.Protocol.Reader.{negative32}
use nsq.Nsqd.Daemon.{ChannelMap, TopicEntry, Daemon}

pub data Command : Type 0 where
  identify ping : Command
  register un_register : List ℕ → List ℕ → Command

unfoldable pub register_channels : List ℕ → ChannelMap → List Command
register_channels topic [] = []
register_channels topic ((name, c) ∷ m) = register topic name ∷ register_channels topic m

-- The commands that connectCallback builds before it sends them.
unfoldable pub register_commands : List (List ℕ × TopicEntry) → List Command
register_commands [] = []
register_commands ((name, t) ∷ m) =
    (if length t.channel_map == 0
      then register name [] ∷ []
      else register_channels name t.channel_map)
    ++ register_commands m

-- What comes through notifyChan: a channel or a topic, and whether it is exiting.
pub data Changed : Type 0 where
  channel : List ℕ → List ℕ → Bool → Changed
  topic : List ℕ → Bool → Changed

unfoldable pub notify_command : Changed → Command
notify_command (channel topic_name name exiting) =
    if exiting then un_register topic_name name else register topic_name name
notify_command (topic name exiting) = if exiting then un_register name [] else register name []

unfoldable pub in_list : List ℕ → List (List ℕ) → Bool
in_list s [] = false
in_list s (v ∷ lst) = let rest = in_list s lst in if s == v then true else rest

pub data PeerState : Type 0 where
  disconnected connected : PeerState

pub record PeerInfo : Type 0 where
  pub tcp_port : ℕ
  pub http_port : ℕ
  pub version : List ℕ
  pub broadcast_address : List ℕ

pub record LookupPeer : Type 0 where
  pub addr : List ℕ
  pub has_conn : Bool
  pub state : PeerState
  pub info : PeerInfo

unfoldable pub new_lookup_peer : List ℕ → LookupPeer
new_lookup_peer addr = record {
  addr = addr;
  has_conn = false;
  state = disconnected;
  info = record { tcp_port = 0; http_port = 0; version = []; broadcast_address = [] };
}

-- The case of optsNotificationChan: the peers that stay, and those that are closed.
unfoldable pub keep_peers : List LookupPeer → List (List ℕ) → List LookupPeer × List LookupPeer
keep_peers [] addrs = ([], [])
keep_peers (lp ∷ peers) addrs =
    let (kept, closed) = keep_peers peers addrs in
    if in_list lp.addr addrs then (lp ∷ kept, closed) else (kept, lp ∷ closed)

-- The loop of `connect`: the peers that are added for the configured addresses, and the addresses.
unfoldable pub add_peers :
    List (List ℕ) → List LookupPeer → List (List ℕ) → List LookupPeer × List (List ℕ)
add_peers [] peers addrs = (peers, addrs)
add_peers (host ∷ hosts) peers addrs =
    if in_list host addrs
    then add_peers hosts peers addrs
    else add_peers hosts (peers ++ new_lookup_peer host ∷ []) (addrs ++ host ∷ [])

-- The addresses of the nsqlookupds that have answered with theirs.
unfoldable pub lookupd_http_addrs : List LookupPeer → List (List ℕ)
lookupd_http_addrs [] = []
lookupd_http_addrs (lp ∷ peers) =
    let addr = join_host_port lp.info.broadcast_address (itoa lp.info.http_port) in
    let rest = lookupd_http_addrs peers in
    if length lp.info.broadcast_address == 0 then rest else addr ∷ rest

-- The network: net.Dial, writes, io.ReadFull of so many bytes, and Close; the flags say whether they
-- succeed. `write_command` is WriteTo of a command, and `unmarshal` is json.Unmarshal of peer info.
pub record Network (W : Type 0) : Type 0 where
  pub dial : W → List ℕ → W × Bool
  pub write_magic : W → W × Bool
  pub write_command : W → Command → W × Bool
  pub read : W → ℕ → W × Option (List ℕ)
  pub close_conn : W → W
  pub unmarshal : List ℕ → Option PeerInfo

pub data Reply : Type 0 where
  panics failed : Reply
  response : List ℕ → Reply

pub record Peer (W : Type 0) : Type 0 where
  pub lp : LookupPeer
  pub world : W

abbrev pub e_invalid_bytes : List ℕ
e_invalid_bytes = b'E' ∷ b'_' ∷ b'I' ∷ b'N' ∷ b'V' ∷ b'A' ∷ b'L' ∷ b'I' ∷ b'D' ∷ []

module _ {W : Type 0} (net : Network W) where
  abbrev pub read_body : W × Option (List ℕ) → W × Reply
  read_body (w, none) = (w, failed)
  read_body (w, some buf) = (w, response buf)

  -- From the size on; make([]byte, msgSize) panics for a negative size, which no limit refuses that
  -- is not negative itself.
  abbrev pub read_sized : ℕ → W × Option (List ℕ) → W × Reply
  read_sized limit (w, none) = (w, failed)
  read_sized limit (w, some size) =
      let msg_size = from_be 0 size in
      if negative32 msg_size
      then (w, panics)
      else if ltb limit msg_size
      then (w, failed)
      else read_body (net.read w msg_size)

  unfoldable pub read_response_bounded : W → ℕ → W × Reply
  read_response_bounded w limit = read_sized limit (net.read w 4)

  unfoldable pub close : Peer W → Peer W
  close p = record {
    lp = record p.lp { state = disconnected };
    world = if p.lp.has_conn then net.close_conn p.world else p.world;
  }

  abbrev pub close_if_failed : LookupPeer → W × Reply → Peer W × Reply
  close_if_failed lp (w, panics) = (record { lp = lp; world = w }, panics)
  close_if_failed lp (w, failed) = (close (record { lp = lp; world = w }), failed)
  close_if_failed lp (w, response resp) = (record { lp = lp; world = w }, response resp)

  abbrev pub after_write : ℕ → LookupPeer → W × Bool → Peer W × Reply
  after_write limit lp (w, false) = (close (record { lp = lp; world = w }), failed)
  after_write limit lp (w, true) = close_if_failed lp (read_response_bounded w limit)

  -- Command of a connected peer.
  unfoldable pub round_trip : ℕ → Peer W → Command → Peer W × Reply
  round_trip limit p cmd = after_write limit p.lp (net.write_command p.world cmd)

  abbrev pub send_rest : (Peer W → Peer W × Bool) → Peer W × Reply → Peer W × Bool
  send_rest rest (p, panics) = (p, true)
  send_rest rest (p, failed) = (p, false)
  send_rest rest (p, response resp) = rest p

  -- The loop of connectCallback that sends the commands; the flag says whether it panics.
  unfoldable pub send_all : ℕ → Peer W → List Command → Peer W × Bool
  send_all limit p [] = (p, false)
  send_all limit p (cmd ∷ commands) =
      send_rest (λ p'. send_all limit p' commands) (round_trip limit p cmd)

  abbrev pub with_info : ℕ → List Command → Peer W → Option PeerInfo → Peer W × Bool
  with_info limit commands p none = (close p, false)
  with_info limit commands p (some info) =
      send_all limit (record p { lp = record p.lp { info = info } }) commands

  abbrev pub after_identify : ℕ → List Command → Peer W × Reply → Peer W × Bool
  after_identify limit commands (p, panics) = (p, true)
  after_identify limit commands (p, failed) = (p, false)
  after_identify limit commands (p, response resp) =
      if resp == e_invalid_bytes
      then (close p, false)
      else with_info limit commands p (net.unmarshal resp)

  -- The callback; the peer that calls it is connected, and whenever it is not any longer, the
  -- callback returns. Identify of go-nsq does not fail for the map that the code gives it.
  unfoldable pub connect_callback : ℕ → List Command → Peer W → Peer W × Bool
  connect_callback limit commands p = after_identify limit commands (round_trip limit p identify)

  abbrev pub send : ℕ → Option Command → Peer W → Peer W × Reply
  send limit none p = (p, response [])
  send limit (some cmd) p = round_trip limit p cmd

  abbrev pub is_connected : PeerState → Bool
  is_connected connected = true
  is_connected disconnected = false

  abbrev pub after_callback : ℕ → Option Command → Peer W × Bool → Peer W × Reply
  after_callback limit cmd (p, true) = (p, panics)
  after_callback limit cmd (p, false) =
      if is_connected p.lp.state then send limit cmd p else (p, failed)

  abbrev pub after_magic :
      ℕ → List Command → Option Command → LookupPeer → W × Bool → Peer W × Reply
  after_magic limit commands cmd lp (w, false) = (close (record { lp = lp; world = w }), failed)
  after_magic limit commands cmd lp (w, true) =
      after_callback limit cmd (connect_callback limit commands (record { lp = lp; world = w }))

  abbrev pub after_dial : ℕ → List Command → Option Command → LookupPeer → W × Bool → Peer W × Reply
  after_dial limit commands cmd lp (w, false) = (record { lp = lp; world = w }, failed)
  after_dial limit commands cmd lp (w, true) =
      after_magic limit commands cmd (record lp { has_conn = true; state = connected })
        (net.write_magic w)

  -- Command; `commands` are those of the callback, and no command only connects.
  unfoldable pub command : ℕ → List Command → Peer W → Option Command → Peer W × Reply
  command limit commands p cmd =
      if is_connected p.lp.state
      then send limit cmd p
      else after_dial limit commands cmd p.lp (net.dial p.world p.lp.addr)
