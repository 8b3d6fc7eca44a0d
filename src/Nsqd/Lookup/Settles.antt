-- ===== src/Nsqd/Lookup/Settles.antt =====
-- The state in which a command leaves the connection to an nsqlookupd.
use nsq.Common.{
  ℕ, ◌^◌, ◌<◌, ◌≤◌, ◌≢◌, ◌↔◌, ltb, arith, ◌≡◌, refl, sym, ap, Bool, true, false, List, [], ◌∷◌,
  Option, none, some, Bool-cases, inl, inr, ◌==◌, bytes_eq, subst, if◌then◌else◌,
}
use nsq.Common.Bytes.{be_bytes, from_be-be_bytes}
use nsq.Protocol.Reader.{negative32}
use nsq.Nsqd.Lookup.{
  Command, identify, PeerState, disconnected, connected, PeerInfo, LookupPeer, Network, Reply,
  panics, failed, response, Peer, read_body, read_response_bounded, close, close_if_failed,
  after_write, round_trip, send_rest, send_all, with_info, after_identify, connect_callback, send,
  is_connected, after_callback, after_magic, after_dial, command, e_invalid_bytes,
}

-- A peer that is connected has a connection to read from.
abbrev pub IsSound : LookupPeer → Type 0
IsSound lp = lp.state ≡ connected → lp.has_conn ≡ true

abbrev pub IsUp : LookupPeer → Type 0
IsUp lp = (lp.state ≡ connected) × (lp.has_conn ≡ true)

-- After a failure the peer is disconnected, and after an answer it is connected.
abbrev pub IsSettled : LookupPeer → Reply → Type 0
IsSettled lp panics = Unit
IsSettled lp failed = lp.state ≡ disconnected
IsSettled lp (response resp) = IsUp lp

module _ {W : Type 0} (net : Network W) where
  abbrev Settles : Peer W × Reply → Type 0
  Settles (p, r) = IsSettled p.lp r

  close-disconnected : (p : Peer W) → (close net p).lp.state ≡ disconnected
  unfolding close
  close-disconnected p = refl

  close_if_failed-Settles :
      (lp : LookupPeer) (r : W × Reply) → IsUp lp → Settles (close_if_failed net lp r)
  close_if_failed-Settles lp (w, panics) up = tt
  close_if_failed-Settles lp (w, failed) up = close-disconnected (record { lp = lp; world = w })
  close_if_failed-Settles lp (w, response resp) up = up

  after_write-Settles :
      (limit : ℕ) (lp : LookupPeer) (r : W × Bool) → IsUp lp → Settles (after_write net limit lp r)
  after_write-Settles limit lp (w, false) up = close-disconnected (record { lp = lp; world = w })
  after_write-Settles limit lp (w, true) up =
      close_if_failed-Settles lp (read_response_bounded net w limit) up

  round_trip-Settles :
      (limit : ℕ) (p : Peer W) (cmd : Command) → IsUp p.lp → Settles (round_trip net limit p cmd)
  unfolding round_trip
  round_trip-Settles limit p cmd up =
      after_write-Settles limit p.lp (net.write_command p.world cmd) up

  -- The callback leaves the peer connected or disconnected.
  data IsEither (lp : LookupPeer) : Type 0 where
    still_up : IsUp lp → IsEither lp
    now_down : lp.state ≡ disconnected → IsEither lp

  abbrev Ends : Peer W × Bool → Type 0
  Ends (p, true) = Unit
  Ends (p, false) = IsEither p.lp

  send_rest-Ends :
      (rest : Peer W → Peer W × Bool) (r : Peer W × Reply)
      → ((p : Peer W) → IsUp p.lp → Ends (rest p))
      → Settles r
      → Ends (send_rest net rest r)
  send_rest-Ends rest (p, panics) h s = tt
  send_rest-Ends rest (p, failed) h s = now_down s
  send_rest-Ends rest (p, response resp) h s = h p s

  send_all-Ends :
      (limit : ℕ) (commands : List Command) (p : Peer W)
      → IsUp p.lp
      → Ends (send_all net limit p commands)
  unfolding send_all
  send_all-Ends limit [] p up = still_up up
  send_all-Ends limit (cmd ∷ commands) p up =
      send_rest-Ends (λ p'. send_all net limit p' commands) (round_trip net limit p cmd)
        (λ p' up'. send_all-Ends limit commands p' up') (round_trip-Settles limit p cmd up)

  with_info-Ends :
      (limit : ℕ) (commands : List Command) (p : Peer W) (o : Option PeerInfo)
      → IsUp p.lp
      → Ends (with_info net limit commands p o)
  with_info-Ends limit commands p none up = now_down (close-disconnected p)
  with_info-Ends limit commands p (some info) up =
      send_all-Ends limit commands (record p { lp = record p.lp { info = info } }) up

  after_identify-Ends :
      (limit : ℕ) (commands : List Command) (r : Peer W × Reply)
      → Settles r
      → Ends (after_identify net limit commands r)
  after_identify-Ends limit commands (p, panics) s = tt
  after_identify-Ends limit commands (p, failed) s = now_down s
  after_identify-Ends limit commands (p, response resp) s =
      elim (Bool-cases (resp == e_invalid_bytes)) [
        | inl invalid ↦ rw invalid (now_down (close-disconnected p))
        | inr other ↦ rw other (with_info-Ends limit commands p (net.unmarshal resp) s)
      ]

  send-Settles :
      (limit : ℕ) (cmd : Option Command) (p : Peer W) → IsUp p.lp → Settles (send net limit cmd p)
  send-Settles limit none p up = up
  send-Settles limit (some cmd) p up = round_trip-Settles limit p cmd up

  after_callback-Settles :
      (limit : ℕ) (cmd : Option Command) (r : Peer W × Bool)
      → Ends r
      → Settles (after_callback net limit cmd r)
  after_callback-Settles limit cmd (p, true) e = tt
  after_callback-Settles limit cmd (p, false) (still_up up) =
      let e : is_connected net p.lp.state ≡ true = ap (λ s. is_connected net s) up.0 in
      subst (λ b. Settles (if b then send net limit cmd p else (p, failed))) (sym e)
        (send-Settles limit cmd p up)
  after_callback-Settles limit cmd (p, false) (now_down down) =
      let e : is_connected net p.lp.state ≡ false = ap (λ s. is_connected net s) down in
      subst (λ b. Settles (if b then send net limit cmd p else (p, failed))) (sym e) down

  after_magic-Settles :
      (limit : ℕ) (commands : List Command) (cmd : Option Command) (lp : LookupPeer) (r : W × Bool)
      → IsUp lp
      → Settles (after_magic net limit commands cmd lp r)
  unfolding connect_callback
  after_magic-Settles limit commands cmd lp (w, false) up =
      close-disconnected (record { lp = lp; world = w })
  after_magic-Settles limit commands cmd lp (w, true) up =
      let p : Peer W = record { lp = lp; world = w } in
      after_callback-Settles limit cmd (connect_callback net limit commands p) (
        after_identify-Ends limit commands (round_trip net limit p identify)
          (round_trip-Settles limit p identify up))

  after_dial-Settles :
      (limit : ℕ) (commands : List Command) (cmd : Option Command) (lp : LookupPeer) (r : W × Bool)
      → lp.state ≡ disconnected
      → Settles (after_dial net limit commands cmd lp r)
  after_dial-Settles limit commands cmd lp (w, false) down = down
  after_dial-Settles limit commands cmd lp (w, true) down =
      after_magic-Settles limit commands cmd (record lp { has_conn = true; state = connected })
        (net.write_magic w) (refl, refl)

  state_cases :
      (s : PeerState)
      → (is_connected net s ≡ true → s ≡ connected)
        × (is_connected net s ≡ false → s ≡ disconnected)
  state_cases connected = (λ e. refl, λ e. cc)
  state_cases disconnected = (λ e. cc, λ e. refl)

  -- Command of a peer that has a connection if it is connected, and that does not panic, leaves the
  -- peer disconnected if it fails, so that the next command connects and registers again, and
  -- connected, with a connection, if it returns an answer.
  pub command-IsSettled :
      (limit : ℕ) (commands : List Command) (p : Peer W) (cmd : Option Command)
      → IsSound p.lp
      → IsSettled (command net limit commands p cmd).0.lp (command net limit commands p cmd).1
  unfolding command
  command-IsSettled limit commands p cmd sound = elim (Bool-cases (is_connected net p.lp.state)) [
    | inl up ↦
        let e = (state_cases p.lp.state).0 up in rw up (send-Settles limit cmd p (e, sound e))
    | inr down ↦ rw down (
        after_dial-Settles limit commands cmd p.lp (net.dial p.world p.lp.addr)
          ((state_cases p.lp.state).1 down))
  ]

  read_body-answers : (r : W × Option (List ℕ)) → (read_body net r).1 ≢ panics
  read_body-answers (w, none) e = cc
  read_body-answers (w, some buf) e = cc

  -- Reading an answer, once the four bytes of its length have come, panics exactly if the length, as
  -- an int32, is negative.
  read_response_bounded-panics :
      (w w' : W) (limit n : ℕ)
      → net.read w 4 ≡ (w', some (be_bytes 4 n))
      → n < 256 ^ 4
      → ((read_response_bounded net w limit).1 ≡ panics) ↔ (2 ^ 31 ≤ n)
  unfolding read_response_bounded
  read_response_bounded-panics w w' limit n e h =
      rw (e, from_be-be_bytes 4 n h)
        (elim (Bool-cases (negative32 n)) [
          | inl negative ↦ rw negative (λ p. ground (arith, negative), λ p. refl)
          | inr fine ↦ rw fine (elim (Bool-cases (ltb limit n)) [
            | inl long ↦ rw long (λ p. cc, λ big. absurd (ground (arith, fine)))
            | inr short ↦ rw short (
              λ p. absurd (read_body-answers (net.read w' n) p),
              λ big. absurd (ground (arith, fine)),
            )
          ])
        ])
