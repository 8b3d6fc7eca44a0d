-- ===== src/Nsqd/Commands/Laws.antt =====
-- What the commands of a consumer do to its connection and its channel.
use nsq.Common.{
  ℕ, ◌%◌, ◌≤◌, ◌<◌, ◌^◌, ◌≡◌, ◌≢◌, ◌↔◌, refl, ap, true, false, List, ◌∷◌, none, some, arith, nat_eq,
  bytes_eq, length, ◌+◌, ◌-◌, ◌⊎◌, inl, inr,
}
use nsq.Common.Map.{lookup, insert, lookup-insert}
use nsq.Protocol.{client_err, fatal_client_err, e_invalid, e_fin_failed}
use nsq.Protocol.Base10.{decimal, AreDigits, byte_to_base10-digits}
use nsq.Nsqd.Client.{subscribed, is_ready_for_messages, set_ready_count, finished_message}
use nsq.Nsqd.Client.Counters.{is_ready_iff}
use nsq.Nsqd.Channel.{Channel}
use nsq.Nsqd.Channel.InFlight.{IsConsistent}
use nsq.Nsqd.Channel.Deliver.{Owns, Owns-cases, finish_message-Owns, finish_message-refused}
use nsq.Nsqd.Commands.{
  Options, Connection, nothing, failed, rdy, fin, with_client, is_subscribed, is_closing,
  get_message_id,
}

module _ {Q B : Type 0} (options : Options) where
  -- RDY with a number in digits sets the ready count of a subscribed client to the number modulo 2
  -- ^ 64, if that is in range (which ends below 2 ^ 63), and fails with a fatal error otherwise;
  -- once set, a client whose channel is not paused is sent messages exactly while fewer than that
  -- are in flight.
  rdy-digits :
      (conn : Connection Q B) (c : Channel Q B) (command ds : List ℕ) (rest : List (List ℕ))
      → conn.client.state ≡ subscribed
      → conn.channel ≡ some c
      → AreDigits ds
      → options.max_rdy_count < 2 ^ 63
      → conn.client.in_flight_count < 2 ^ 63
      → ((options.max_rdy_count < decimal 0 ds % 2 ^ 64)
          → rdy options conn (command ∷ ds ∷ rest)
            ≡ some (conn, failed (fatal_client_err e_invalid)))
        × ((decimal 0 ds % 2 ^ 64 ≤ options.max_rdy_count)
            → (rdy options conn (command ∷ ds ∷ rest)
                ≡ some (
                  with_client conn c (set_ready_count conn.client (decimal 0 ds % 2 ^ 64)),
                  nothing,
                ))
              × ((is_ready_for_messages false (set_ready_count conn.client (decimal 0 ds % 2 ^ 64))
                    ≡ true)
                  ↔ (conn.client.in_flight_count < decimal 0 ds % 2 ^ 64)))
  unfolding rdy set_ready_count
  rdy-digits conn c command ds rest s ch d m inf =
      let count = decimal 0 ds % 2 ^ 64 in
      let set_client = record conn.client { ready_count = count } in
      let ready : count ≤ options.max_rdy_count
          → (is_ready_for_messages false set_client ≡ true)
            ↔ (conn.client.in_flight_count < count) =
        λ h.
          let iff = is_ready_iff false set_client (omega arith) inf in
          (λ e. (iff.0 e).1, λ l. iff.1 (refl, l)) in
      let in_state = ap is_subscribed s in
      let not_closing = ap is_closing s in
      let number = byte_to_base10-digits ds d in
      (
        λ h. simp (in_state, not_closing, number) (ground arith),
        λ h. (simp (in_state, not_closing, number, ch) (ground arith), ready h),
      )

-- What FIN does to a connection `conn` and its channel `c`.
pub record Finished {Q B : Type 0} (conn : Connection Q B) (c : Channel Q B) (id : List ℕ)
    (conn' : Connection Q B) : Type 0 where
  pub left : Channel Q B
  pub holds : conn'.channel ≡ some left
  pub consistent : IsConsistent left
  pub gone : lookup id left.in_flight_messages ≡ none
  pub others :
      (id' : List ℕ)
      → id ≢ id'
      → lookup id' left.in_flight_messages ≡ lookup id' c.in_flight_messages
  pub frame : left ≡ record c {
    in_flight_messages = left.in_flight_messages;
    in_flight_pq = left.in_flight_pq;
    clients = left.clients;
  }
  pub counts : conn'.client ≡ record conn.client {
    finish_count = (conn.client.finish_count + 1) % 2 ^ 64;
    in_flight_count = (conn.client.in_flight_count + 2 ^ 64 - 1) % 2 ^ 64;
  }
  pub in_channel : lookup conn.client_id left.clients ≡ some conn'.client

module _ {Q B : Type 0} (E : Type 0) (options : Options) where
  -- FIN of a subscribed client for a message that it does not have in flight is answered by an
  -- error that leaves the connection open, and changes nothing.
  fin-refused :
      (conn : Connection Q B) (c : Channel Q B) (command id : List ℕ) (rest : List (List ℕ))
      → conn.client.state ≡ subscribed
      → conn.channel ≡ some c
      → length id ≡ 16
      → ((r : ℕ) → ¬ (Owns c conn.client_id id r))
      → fin E options conn (command ∷ id ∷ rest)
        ≡ some (record conn { channel = some c }, failed (client_err e_fin_failed))
  unfolding fin get_message_id
  fin-refused conn c command id rest s ch len no_owner =
      let (e, run) = finish_message-refused {E = E} c conn.client_id id no_owner in
      let in_state = ap is_subscribed s in
      let not_closing = ap is_closing s in simp (in_state, not_closing, len, ch, run) (ground arith)

  -- On a consistent channel, FIN of a subscribed client for a message that it has in flight.
  fin-Owns :
      (conn : Connection Q B) (c : Channel Q B) (command id : List ℕ) (rest : List (List ℕ)) (r : ℕ)
      → conn.client.state ≡ subscribed
      → conn.channel ≡ some c
      → length id ≡ 16
      → IsConsistent c
      → Owns c conn.client_id id r
      → (conn' : Connection Q B) × (fin E options conn (command ∷ id ∷ rest)
          ≡ some (conn', nothing))
        × Finished conn c id conn'
  unfolding fin get_message_id finished_message
  fin-Owns conn c command id rest r s ch len v o =
      let (c', run, consistent, gone, others, same) =
        finish_message-Owns {E = E} c conn.client_id id r v o in
      let in_state = ap is_subscribed s in
      let not_closing = ap is_closing s in
      let client = record conn.client {
        finish_count = (conn.client.finish_count + 1) % 2 ^ 64;
        in_flight_count = (conn.client.in_flight_count + 2 ^ 64 - 1) % 2 ^ 64;
      } in
      (
        with_client conn c' client,
        simp (in_state, not_closing, len, ch, run) (ground arith),
        record {
          left = record c' { clients = insert conn.client_id client c'.clients };
          holds = refl;
          consistent = record {
            queue = consistent.queue;
            mapped = consistent.mapped;
            queued = consistent.queued;
          };
          gone = gone;
          others = others;
          frame =
              ap
                (λ (d : Channel Q B). record d {
                  clients = insert conn.client_id client c'.clients;
                })
                same;
          counts = refl;
          in_channel =
              ground (arith, lookup-insert conn.client_id conn.client_id client c'.clients);
        },
      )

  -- FIN of a subscribed client with an id of 16 bytes, on a consistent channel. If the client has a
  -- message with this id in flight, the message is taken out of flight and no other; it is counted
  -- as finished and no longer as in flight, for the connection and for its client in the channel;
  -- and nothing is answered. If not, FIN changes nothing and is answered by the error E_FIN_FAILED.
  pub fin_lem :
      (conn : Connection Q B) (c : Channel Q B) (command id : List ℕ) (rest : List (List ℕ))
      → conn.client.state ≡ subscribed
      → conn.channel ≡ some c
      → length id ≡ 16
      → IsConsistent c
      → ((r : ℕ) × Owns c conn.client_id id r
          × (conn' : Connection Q B) × (fin E options conn (command ∷ id ∷ rest)
              ≡ some (conn', nothing))
          × Finished conn c id conn')
        ⊎ (((r : ℕ) → ¬ (Owns c conn.client_id id r))
            × (fin E options conn (command ∷ id ∷ rest)
                ≡ some (record conn { channel = some c }, failed (client_err e_fin_failed))))
  fin_lem conn c command id rest s ch len v = elim (Owns-cases c conn.client_id id) [
    | inl (r, o) ↦
        let (conn', run, finished) = fin-Owns conn c command id rest r s ch len v o in
        inl (r, o, conn', run, finished)
    | inr no_owner ↦ inr (no_owner, fin-refused conn c command id rest s ch len no_owner)
  ]
