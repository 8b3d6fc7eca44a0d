-- ===== src/Nsqd/Commands/Subscribe/Joins.antt =====
-- SUB ends as soon as it finds a topic and a channel that stay.
use nsq.Common.{ℕ, ◌<◌, ◌≡◌, ◌⊎◌, List, [], ◌∷◌, none, nat_eq, length}
use nsq.Common.Map.{lookup, insert}
use nsq.Nsqd.Client.{Client}
use nsq.Nsqd.Channel.{Channel}

module _ {Q B : Type 0} where
  -- A channel that does not have the client, and room for it.
  pub record Admits (max_consumers client_id : ℕ) (c : Channel Q B) : Type 0 where
    pub absent : lookup client_id c.clients ≡ none
    pub room : (max_consumers ≡ 0) ⊎ (length c.clients < max_consumers)

  abbrev pub with_member : ℕ → Client → Channel Q B → Channel Q B
  with_member client_id client c = record c { clients = insert client_id client c.clients }

  -- None of the channels has the client.
  abbrev pub AllWithout : ℕ → List (Channel Q B) → Type 0
  AllWithout client_id [] = Unit
  AllWithout client_id (c ∷ cs) = (lookup client_id c.clients ≡ none) × AllWithout client_id cs
