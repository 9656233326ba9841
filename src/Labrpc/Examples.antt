-- ===== src/Labrpc/Examples.antt =====
-- A network with one end and one server, and the theorems on it.
use dist_kv_raft.Common.{
  ap, some, ℕ, ◌≡◌, refl, true, false, List, [], ◌∷◌, ◌++◌, Bytes, lookup, insert, bytes_eq,
  bytes_beq, string_eq, nat_eq,
}
use dist_kv_raft.Labrpc.Network.{
  Network, make_network, set_reliable, read_endname_info, is_server_dead, add_server, connect,
  enable,
}
use dist_kv_raft.Labrpc.Dispatch.{
  Server, Method, fatal, make_server, make_service, add_service, server_dispatch, suitable_methods,
  is_suitable,
}
use dist_kv_raft.Labrpc.Calls.{call_returns_reply}
use dist_kv_raft.Labrpc.Delivery.{
  ok, call, receive, ReqMsg, Draws, Poll, returned, timed_out, process_req, wait_reply, failure,
  answered, execute, finish, is_dropped,
}
use dist_kv_raft.Labrpc.Answers.{success, IsAnswered, success_means_executed}
use dist_kv_raft.Labrpc.Setup.{set_up, call_reaches_method}

abbrev kv : Bytes
kv = b'K' ∷ b'V' ∷ []

abbrev get : Bytes
get = b'G' ∷ []

abbrev get_method : Method
get_method = record {
  name = get;
  is_exported = true;
  num_in = 3;
  reply_is_pointer = true;
  num_out = 0;
  run = λ args. b'!' ∷ args;
}

-- Not a handler: it has one argument too few.
abbrev kill_method : Method
kill_method = record get_method { name = b'K' ∷ []; num_in = 1 }

abbrev methods : List Method
methods = get_method ∷ kill_method ∷ []

abbrev server : Server
server = add_service (make_service kv methods) make_server

abbrev store : ℕ → Server
store address = server

abbrev network : Network
network = set_up "end" "server" 7 make_network

abbrev req : ReqMsg
req = record { endname = "end"; svc_meth = kv ++ b'.' ∷ get; args = b'a' ∷ [] }

abbrev draws : Draws
draws = record { request = 50; reply = 50; reordering = 0 }

abbrev polls : List Poll
polls = timed_out network ∷ returned ∷ []

run_of_get :
    (process_req req network store draws polls network).outcome ≡ success (b'!' ∷ b'a' ∷ [])
unfolding process_req make_network enable connect add_server read_endname_info is_server_dead
    server_dispatch add_service make_service make_server execute finish wait_reply lookup insert
    bytes_beq
run_of_get = refl

unreliable_drops :
    (process_req req (set_reliable false network) store draws polls network).outcome
    ≡ answered failure
unfolding process_req make_network enable connect add_server read_endname_info set_reliable
    is_dropped lookup insert
unreliable_drops = refl

unsuitable_ends_process : (server_dispatch (kv ++ b'.' ∷ b'K' ∷ []) [] server).0 ≡ fatal
unfolding server_dispatch add_service make_service make_server lookup insert bytes_beq
unsuitable_ends_process = refl

success_means_executed_example :
    IsAnswered req network store network
      (process_req req network store draws polls network)
      (b'!' ∷ b'a' ∷ [])
success_means_executed_example =
    success_means_executed req network store draws polls network (b'!' ∷ b'a' ∷ []) run_of_get

call_reaches_method_example :
    (process_req req network store draws (returned ∷ []) network).outcome
    ≡ success (b'!' ∷ b'a' ∷ [])
unfolding make_network suitable_methods is_suitable bytes_beq
call_reaches_method_example =
    call_reaches_method "end" "server" 7 kv get (b'a' ∷ []) methods get_method make_server
      make_network store draws [] refl (refl, tt) refl refl

-- Arguments and replies that are bytes already.
abbrev as_is : Bytes → Bytes
as_is bytes = bytes

call_of_get :
    call as_is some
      (λ r. (process_req r network store draws polls network).outcome)
      true
      "end"
      (kv ++ b'.' ∷ get)
      (b'a' ∷ [])
    ≡ ok (b'!' ∷ b'a' ∷ [])
unfolding call receive
call_of_get = ap (receive some) run_of_get

call_returns_reply_example :
    (bytes : Bytes) × (some bytes ≡ some (b'!' ∷ b'a' ∷ []))
    × IsAnswered req network store network (process_req req network store draws polls network) bytes
call_returns_reply_example =
    call_returns_reply as_is some network store draws polls network true "end" (kv ++ b'.' ∷ get)
      (b'a' ∷ []) (b'!' ∷ b'a' ∷ []) call_of_get
