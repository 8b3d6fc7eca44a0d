-- ===== src/Lookupd/Session/Identify.antt =====
-- nsqlookupd/lookup_protocol_v1.go: IDENTIFY, and Exec, which chooses the handler of a command.
use nsq.Common.{ℕ, List, [], ◌∷◌, Option, none, some, if◌then◌else◌, ◌==◌, nat_eq, bytes_eq}
use nsq.Protocol.{fatal_client_err, e_invalid}
use nsq.Lookupd.Session.{Lookupd, Client, Json, Done, failed, identify, ping, register, unregister}

abbrev pub ping_name : List ℕ
ping_name = b'P' ∷ b'I' ∷ b'N' ∷ b'G' ∷ []

abbrev pub identify_name : List ℕ
identify_name = b'I' ∷ b'D' ∷ b'E' ∷ b'N' ∷ b'T' ∷ b'I' ∷ b'F' ∷ b'Y' ∷ []

abbrev pub register_name : List ℕ
register_name = b'R' ∷ b'E' ∷ b'G' ∷ b'I' ∷ b'S' ∷ b'T' ∷ b'E' ∷ b'R' ∷ []

abbrev pub unregister_name : List ℕ
unregister_name = b'U' ∷ b'N' ∷ register_name

-- Exec; strings.Split gives at least one parameter, the command.
unfoldable pub exec : Json → Lookupd → Client → List ℕ → ℕ → List (List ℕ) → Option Done
exec json d client input now [] = none
exec json d client input now (command ∷ params) =
    if command == ping_name
    then (let (d', reply) = ping d client now in some (d', client, input, reply))
    else if command == identify_name
    then identify json d client input now
    else if command == register_name
    then (let (d', reply) = register d client params in some (d', client, input, reply))
    else if command == unregister_name
    then (let (d', reply) = unregister d client params in some (d', client, input, reply))
    else some (d, client, input, failed (fatal_client_err e_invalid))
