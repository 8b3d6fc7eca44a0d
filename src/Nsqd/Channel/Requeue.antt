-- ===== src/Nsqd/Channel/Requeue.antt =====
-- REQ without a delay: the message goes back to the queue of its channel at once.
use nsq.Common.{
  ℕ, ◌+◌, ◌%◌, ◌^◌, ◌<◌, ◌≡◌, refl, List, [], ◌∷◌, ◌++◌, none, some, arith, if◌then◌else◌, nat_eq,
  bytes_eq, bytes_beq_iff, length,
}
use nsq.Common.Map.{lookup, delete, lookup-delete}
use nsq.Nsqd.Channel.{Channel, DeferredQueue, BackendQueue, exiting}
use nsq.Nsqd.Channel.InFlight.{IsConsistent, take_out}
use nsq.Nsqd.Channel.Deliver.{Owns, pop-Owns}
use nsq.Nsqd.Channel.Scan.{requeue_message, put}

module _ {Q B E : Type 0} (deferred_queue : DeferredQueue Q)
    (backend_queue : BackendQueue B E) where
  -- On a consistent channel, REQ without a delay, by the client that has the message in flight,
  -- takes it out of flight. If the memory queue has room, the message is then the last in it, unless
  -- the channel is exiting: then an error is returned. The deferred messages and the backend, and in
  -- the case of the error the memory queue, stay as they are.
  pub requeue_message-Owns :
      (c : Channel Q B) (client_id : ℕ) (id : List ℕ) (r now : ℕ)
      → IsConsistent c
      → Owns c client_id id r
      → length c.memory < c.memory_size
      → (c' : Channel Q B) × (requeue_message deferred_queue backend_queue c client_id id now 0
          ≡ some (c', (if c.is_exiting then some exiting else none)))
        × IsConsistent c'
        × (lookup id c'.in_flight_messages ≡ none)
        × (c'.memory ≡ (if c.is_exiting then c.memory else c.memory ++ r ∷ []))
        × (c'.backend ≡ c.backend)
        × (c'.deferred_messages ≡ c.deferred_messages)
  unfolding requeue_message put
  requeue_message-Owns c client_id id r now v o room =
      let (q, run, gone, consistent) = take_out c id r v o.found in
      let left = delete id c.in_flight_messages in
      let out : Channel Q B = record c { in_flight_messages = left; in_flight_pq = q } in
      (
        record out {
          requeue_count = (c.requeue_count + 1) % 2 ^ 64;
          memory = if c.is_exiting then c.memory else c.memory ++ r ∷ [];
        },
        rw (pop-Owns {E = E} c client_id id r o, run) (ground arith),
        record { queue = consistent.queue; mapped = consistent.mapped; queued = consistent.queued },
        ground (arith, lookup-delete id id c.in_flight_messages, bytes_beq_iff id id),
        refl,
        refl,
        refl,
      )
