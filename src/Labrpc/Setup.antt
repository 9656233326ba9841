-- ===== src/Labrpc/Setup.antt =====
-- labrpc/labrpc.go: a new end, connected and enabled as the test configurations do it, reaches the
-- handler.
use dist_kv_raft.Common.{
  ℕ, nat_beq, ◌≡◌, refl, ap, ◌∙◌, true, false, none, some, List, ◌∷◌, ◌++◌, String, Bytes,
  string_eq, nat_eq, beq_refl, lookup-insert, All,
}
use dist_kv_raft.Labrpc.Network.{
  Network, read_endname_info, is_server_dead, add_server, connect, enable,
}
use dist_kv_raft.Labrpc.Dispatch.{
  Server, Method, server_dispatch, make_service, add_service, dispatch_finds_method, handler_of,
  answer,
}
use dist_kv_raft.Labrpc.Delivery.{Draws, Poll, returned, wait_reply, process_req}
use dist_kv_raft.Labrpc.Answers.{success, reliable_call_succeeds}

-- `MakeEnd` has returned `rn`; the rest of the configurations' calls.
abbrev pub set_up : String → String → ℕ → Network → Network
set_up endname servername server rn =
    enable endname true (connect endname servername (add_server servername server rn))

set_up_info :
    (endname servername : String) (server : ℕ) (rn : Network)
    → read_endname_info endname (set_up endname servername server rn) ≡ record {
      enabled = true;
      servername = some servername;
      server = some server;
      reliable = rn.reliable;
      long_reordering = rn.long_reordering;
    }
unfolding read_endname_info enable connect add_server
set_up_info endname servername server rn = simp (
  lookup-insert endname endname true rn.enabled,
  lookup-insert endname endname (some servername) rn.connections,
  lookup-insert servername servername (some server) rn.servers,
  beq_refl endname,
  beq_refl servername,
)

set_up_alive :
    (endname servername : String) (server : ℕ) (rn : Network)
    → is_server_dead endname servername server (set_up endname servername server rn) ≡ false
unfolding is_server_dead enable connect add_server
set_up_alive endname servername server rn = simp (
  lookup-insert endname endname true rn.enabled,
  lookup-insert servername servername (some server) rn.servers,
  beq_refl endname,
  beq_refl servername,
  beq_refl server,
)

set_up_reliable :
    (endname servername : String) (server : ℕ) (rn : Network)
    → rn.reliable ≡ true
    → (set_up endname servername server rn).reliable ≡ true
unfolding enable connect add_server
set_up_reliable endname servername server rn h = h

-- On a reliable network, a call of "S.M" on an end set up to a server whose service S was made from
-- `methods`, where the last suitable method of the name M is m, gets the reply of m.
pub call_reaches_method :
    (endname servername : String) (server : ℕ) (service method args : Bytes) (methods : List Method)
    (m : Method) (rs : Server) (rn : Network) (store : ℕ → Server) (draws : Draws)
    (polls : List Poll)
    → rn.reliable ≡ true
    → All (λ c. nat_beq c b'.' ≡ false) method
    → handler_of method methods none ≡ some m
    → store server ≡ add_service (make_service service methods) rs
    → (process_req
        (record { endname = endname; svc_meth = service ++ b'.' ∷ method; args = args })
        (set_up endname servername server rn)
        store
        draws
        (returned ∷ polls)
        (set_up endname servername server rn)).outcome
      ≡ success (m.run args)
unfolding wait_reply
call_reaches_method endname servername server service method args methods m rs rn store draws polls
      rel h found at =
    let info = set_up_info endname servername server rn in
    reliable_call_succeeds
      (record { endname = endname; svc_meth = service ++ b'.' ∷ method; args = args })
      (set_up endname servername server rn) store draws (returned ∷ polls)
      (set_up endname servername server rn) servername server (m.run args)
      (set_up_reliable endname servername server rn rel) (ap (λ i. i.enabled) info)
      (ap (λ i. i.servername) info) (ap (λ i. i.server) info)
      (ap (λ s. (server_dispatch (service ++ b'.' ∷ method) args s).0) at
        ∙ ap (λ d. d.0) (dispatch_finds_method service method args methods rs h)
        ∙ ap (λ o. answer o args) found)
      refl (set_up_alive endname servername server rn)
