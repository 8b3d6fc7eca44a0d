-- ===== src/Cluster/Uris.antt =====
-- internal/clusterinfo/data.go: the endpoints and the query strings of the POSTs.
use nsq.Common.{
  ℕ, ◌+◌, ◌-◌, ◌/◌, ◌%◌, Bool, ◌&&◌, ◌||◌, List, [], ◌∷◌, ◌++◌, ltb, leb, nat_beq, if◌then◌else◌,
}

abbrev pub topic_create : List ℕ
topic_create =
    b't' ∷ b'o' ∷ b'p' ∷ b'i' ∷ b'c' ∷ b'/' ∷ b'c' ∷ b'r' ∷ b'e' ∷ b'a' ∷ b't' ∷ b'e' ∷ []

abbrev pub topic_delete : List ℕ
topic_delete =
    b't' ∷ b'o' ∷ b'p' ∷ b'i' ∷ b'c' ∷ b'/' ∷ b'd' ∷ b'e' ∷ b'l' ∷ b'e' ∷ b't' ∷ b'e' ∷ []

abbrev pub topic_pause : List ℕ
topic_pause = b't' ∷ b'o' ∷ b'p' ∷ b'i' ∷ b'c' ∷ b'/' ∷ b'p' ∷ b'a' ∷ b'u' ∷ b's' ∷ b'e' ∷ []

abbrev pub topic_unpause : List ℕ
topic_unpause =
    b't' ∷ b'o' ∷ b'p' ∷ b'i' ∷ b'c' ∷ b'/' ∷ b'u' ∷ b'n' ∷ b'p' ∷ b'a' ∷ b'u' ∷ b's' ∷ b'e' ∷ []

abbrev pub topic_empty : List ℕ
topic_empty = b't' ∷ b'o' ∷ b'p' ∷ b'i' ∷ b'c' ∷ b'/' ∷ b'e' ∷ b'm' ∷ b'p' ∷ b't' ∷ b'y' ∷ []

abbrev pub topic_tombstone : List ℕ
topic_tombstone =
    b't' ∷ b'o' ∷ b'p' ∷ b'i' ∷ b'c' ∷ b'/' ∷ b't' ∷ b'o' ∷ b'm' ∷ b'b' ∷ b's' ∷ b't' ∷ b'o' ∷ b'n'
    ∷ b'e' ∷ []

abbrev pub channel_create : List ℕ
channel_create =
    b'c' ∷ b'h' ∷ b'a' ∷ b'n' ∷ b'n' ∷ b'e' ∷ b'l' ∷ b'/' ∷ b'c' ∷ b'r' ∷ b'e' ∷ b'a' ∷ b't' ∷ b'e'
    ∷ []

abbrev pub channel_delete : List ℕ
channel_delete =
    b'c' ∷ b'h' ∷ b'a' ∷ b'n' ∷ b'n' ∷ b'e' ∷ b'l' ∷ b'/' ∷ b'd' ∷ b'e' ∷ b'l' ∷ b'e' ∷ b't' ∷ b'e'
    ∷ []

abbrev pub channel_pause : List ℕ
channel_pause =
    b'c' ∷ b'h' ∷ b'a' ∷ b'n' ∷ b'n' ∷ b'e' ∷ b'l' ∷ b'/' ∷ b'p' ∷ b'a' ∷ b'u' ∷ b's' ∷ b'e' ∷ []

abbrev pub channel_unpause : List ℕ
channel_unpause =
    b'c' ∷ b'h' ∷ b'a' ∷ b'n' ∷ b'n' ∷ b'e' ∷ b'l' ∷ b'/' ∷ b'u' ∷ b'n' ∷ b'p' ∷ b'a' ∷ b'u' ∷ b's'
    ∷ b'e' ∷ []

abbrev pub channel_empty : List ℕ
channel_empty =
    b'c' ∷ b'h' ∷ b'a' ∷ b'n' ∷ b'n' ∷ b'e' ∷ b'l' ∷ b'/' ∷ b'e' ∷ b'm' ∷ b'p' ∷ b't' ∷ b'y' ∷ []

-- url.QueryEscape.
abbrev is_unreserved : ℕ → Bool
is_unreserved c =
    (leb b'a' c && leb c b'z')
    || ((leb b'A' c && leb c b'Z')
        || ((leb b'0' c && leb c b'9')
            || (nat_beq c b'-' || (nat_beq c b'_' || (nat_beq c b'.' || nat_beq c b'~')))))

abbrev upper_hex : ℕ → ℕ
upper_hex d = if ltb d 10 then b'0' + d else b'A' + (d - 10)

abbrev pub query_escape : List ℕ → List ℕ
query_escape [] = []
query_escape (c ∷ s) =
    let rest = query_escape s in
    if is_unreserved c
    then c ∷ rest
    else if nat_beq c 32
    then b'+' ∷ rest
    else b'%' ∷ upper_hex (c / 16) ∷ upper_hex (c % 16) ∷ rest

abbrev pub endpoint : List ℕ → List ℕ → List ℕ → List ℕ
endpoint addr uri qs =
    (b'h' ∷ b't' ∷ b't' ∷ b'p' ∷ b':' ∷ b'/' ∷ b'/' ∷ []) ++ addr ++ b'/' ∷ uri ++ b'?' ∷ qs

abbrev pub topic_query : List ℕ → List ℕ
topic_query topic = (b't' ∷ b'o' ∷ b'p' ∷ b'i' ∷ b'c' ∷ b'=' ∷ []) ++ query_escape topic

abbrev pub channel_query : List ℕ → List ℕ → List ℕ
channel_query topic channel =
    topic_query topic
    ++ (b'&' ∷ b'c' ∷ b'h' ∷ b'a' ∷ b'n' ∷ b'n' ∷ b'e' ∷ b'l' ∷ b'=' ∷ [])
    ++ query_escape channel

abbrev pub node_query : List ℕ → List ℕ → List ℕ
node_query topic node =
    topic_query topic ++ (b'&' ∷ b'n' ∷ b'o' ∷ b'd' ∷ b'e' ∷ b'=' ∷ []) ++ query_escape node
