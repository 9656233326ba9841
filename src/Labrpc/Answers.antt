-- ===== src/Labrpc/Answers.antt =====
-- labrpc/labrpc.go: what the reply of `processReq` tells, and when it must come.
use dist_kv_raft.Common.{
  ℕ, ◌≡◌, refl, ap, sym, ◌∙◌, Bool, true, false, none, some, ◌⊎◌, some_inj, lookup-insert,
  string_eq, beq_refl, List, String, Bytes, arith, Bool-cases, Option-cases, inl, inr,
}
use dist_kv_raft.Labrpc.Network.{Network, EndInfo, read_endname_info, is_server_dead, delete_server}
use dist_kv_raft.Labrpc.Dispatch.{Server, Dispatched, replied, fatal, server_dispatch}
use dist_kv_raft.Labrpc.Delivery.{
  ReqMsg, Draws, Poll, Waited, reply_ok, server_dead, waiting, Outcome, answered, Processed,
  failure, is_dropped, finish, execute, process_req, wait_reply,
}

abbrev pub success : Bytes → Outcome
success bytes = answered (record { is_ok = true; reply = bytes })

-- What a successful reply means: `server` was reachable, ran the handler, and is still there.
pub record IsAnswered (req : ReqMsg) (rn : Network) (store : ℕ → Server) (rn' : Network)
    (p : Processed) (bytes : Bytes) : Type 0 where
  pub servername : String
  pub server : ℕ
  pub is_enabled : (read_endname_info req.endname rn).enabled ≡ true
  pub is_connected : (read_endname_info req.endname rn).servername ≡ some servername
  pub is_present : (read_endname_info req.endname rn).server ≡ some server
  pub is_reply : (server_dispatch req.svc_meth req.args (store server)).0 ≡ replied bytes
  pub is_executed :
      p.executed ≡ some (server, (server_dispatch req.svc_meth req.args (store server)).1)
  pub is_alive : is_server_dead req.endname servername server rn' ≡ false

finish-success :
    (req : ReqMsg) (name : String) (server : ℕ) (info : EndInfo) (draws : Draws) (out bytes : Bytes)
    (w : Waited) (rn : Network)
    → (finish req name server info draws out w rn).0 ≡ success bytes
    → (out ≡ bytes) × (is_server_dead req.endname name server rn ≡ false)
unfolding finish failure
finish-success req name server info draws out bytes waiting rn h = ground (arith)
finish-success req name server info draws out bytes server_dead rn h = ground (arith)
finish-success req name server info draws out bytes reply_ok rn h = ground (arith)

execute-success :
    (req : ReqMsg) (name : String) (server : ℕ) (info : EndInfo) (draws : Draws)
    (d : Dispatched × Server) (polls : List Poll) (rn : Network) (bytes : Bytes)
    → (execute req name server info draws d polls rn).outcome ≡ success bytes
    → (d.0 ≡ replied bytes)
      × ((execute req name server info draws d polls rn).executed ≡ some (server, d.1))
      × (is_server_dead req.endname name server rn ≡ false)
unfolding execute
execute-success req name server info draws (fatal, rs) polls rn bytes h = ground (arith)
execute-success req name server info draws (replied out, rs) polls rn bytes h =
    let done =
      finish-success req name server info draws out bytes (wait_reply req.endname name server polls)
        rn h in
    (ap replied done.0, refl, done.1)

-- The way to the handler is open for this request.
record IsReached (req : ReqMsg) (rn : Network) (draws : Draws) : Type 0 where
  servername : String
  server : ℕ
  is_enabled : (read_endname_info req.endname rn).enabled ≡ true
  is_connected : (read_endname_info req.endname rn).servername ≡ some servername
  is_present : (read_endname_info req.endname rn).server ≡ some server
  is_kept : is_dropped (read_endname_info req.endname rn).reliable draws.request ≡ false

abbrev no_reply : Network → Processed
no_reply rn = record { outcome = answered failure; executed = none; network = rn }

process_req-IsReached :
    (req : ReqMsg) (rn : Network) (store : ℕ → Server) (draws : Draws) (polls : List Poll)
    (rn' : Network) (r : IsReached req rn draws)
    → process_req req rn store draws polls rn'
      ≡ execute req r.servername r.server
          (read_endname_info req.endname rn)
          draws
          (server_dispatch req.svc_meth req.args (store r.server))
          polls
          rn'
unfolding process_req
process_req-IsReached req rn store draws polls rn' r =
    simp (process_req, r.is_enabled, r.is_connected, r.is_present, r.is_kept)

process_req_cases :
    (req : ReqMsg) (rn : Network) (store : ℕ → Server) (draws : Draws) (polls : List Poll)
    (rn' : Network)
    → (process_req req rn store draws polls rn' ≡ no_reply rn') ⊎ IsReached req rn draws
unfolding process_req
process_req_cases req rn store draws polls rn' =
    elim (Bool-cases (read_endname_info req.endname rn).enabled) [
      | inr e ↦ inl (rw (process_req, e))
      | inl e ↦ elim (Option-cases (read_endname_info req.endname rn).servername) [
        | inl c ↦ inl (rw (process_req, e, c))
        | inr (name, c) ↦ elim (Option-cases (read_endname_info req.endname rn).server) [
          | inl p ↦ inl (rw (process_req, e, c, p))
          | inr (server, p) ↦
              elim (Bool-cases
                (is_dropped (read_endname_info req.endname rn).reliable draws.request)) [
                  | inl k ↦ inl (rw (process_req, e, c, p, k))
                  | inr k ↦ inr (record {
                    servername = name;
                    server = server;
                    is_enabled = e;
                    is_connected = c;
                    is_present = p;
                    is_kept = k;
                  })
                ]
        ]
      ]
    ]

failure-success : (bytes : Bytes) → ¬ (answered failure ≡ success bytes)
unfolding failure
failure-success bytes = ground (arith)

-- A call that succeeds was made on an enabled end that is connected to a server that is there; this
-- server ran the handler, whose reply it is, and neither was the server deleted or replaced nor the
-- end disabled when the reply was sent.
pub success_means_executed :
    (req : ReqMsg) (rn : Network) (store : ℕ → Server) (draws : Draws) (polls : List Poll)
    (rn' : Network) (bytes : Bytes)
    → (process_req req rn store draws polls rn').outcome ≡ success bytes
    → IsAnswered req rn store rn' (process_req req rn store draws polls rn') bytes
success_means_executed req rn store draws polls rn' bytes h =
    elim (process_req_cases req rn store draws polls rn') [
      | inl e ↦ absurd (failure-success bytes (sym (ap (λ p. p.outcome) e) ∙ h))
      | inr r ↦
          let run = process_req-IsReached req rn store draws polls rn' r in
          let done =
            execute-success req r.servername r.server (read_endname_info req.endname rn) draws
              (server_dispatch req.svc_meth req.args (store r.server)) polls rn' bytes
              (sym (ap (λ p. p.outcome) run) ∙ h) in
          record {
            servername = r.servername;
            server = r.server;
            is_enabled = r.is_enabled;
            is_connected = r.is_connected;
            is_present = r.is_present;
            is_reply = done.0;
            is_executed = ap (λ p. p.executed) run ∙ done.1;
            is_alive = done.2;
          }
    ]

execute_succeeds :
    (req : ReqMsg) (name : String) (server : ℕ) (info : EndInfo) (draws : Draws)
    (d : Dispatched × Server) (polls : List Poll) (rn : Network) (bytes : Bytes)
    → info.reliable ≡ true
    → d.0 ≡ replied bytes
    → wait_reply req.endname name server polls ≡ reply_ok
    → is_server_dead req.endname name server rn ≡ false
    → (execute req name server info draws d polls rn).outcome ≡ success bytes
unfolding execute finish is_dropped
execute_succeeds req name server info draws (fatal, rs) polls rn bytes rel r w alive =
    ground (arith)
execute_succeeds req name server info draws (replied out, rs) polls rn bytes rel r w alive =
    ground (arith)

kept_when_reliable :
    (req : ReqMsg) (rn : Network) (r : ℕ)
    → rn.reliable ≡ true
    → is_dropped (read_endname_info req.endname rn).reliable r ≡ false
unfolding is_dropped read_endname_info
kept_when_reliable req rn r h = ground (arith)

info_reliable :
    (req : ReqMsg) (rn : Network)
    → rn.reliable ≡ true
    → (read_endname_info req.endname rn).reliable ≡ true
unfolding read_endname_info
info_reliable req rn h = h

deleted_is_dead :
    (endname servername : String) (server : ℕ) (rn : Network)
    → is_server_dead endname servername server (delete_server servername rn) ≡ true
unfolding is_server_dead delete_server
deleted_is_dead endname servername server rn =
    ground (arith, lookup-insert servername servername none rn.servers, beq_refl servername)

-- On a reliable network, a call on an enabled end whose server is there, returns before it is seen
-- to be deleted and is still there at the end, gets the reply of the handler.
pub reliable_call_succeeds :
    (req : ReqMsg) (rn : Network) (store : ℕ → Server) (draws : Draws) (polls : List Poll)
    (rn' : Network) (servername : String) (server : ℕ) (bytes : Bytes)
    → rn.reliable ≡ true
    → (read_endname_info req.endname rn).enabled ≡ true
    → (read_endname_info req.endname rn).servername ≡ some servername
    → (read_endname_info req.endname rn).server ≡ some server
    → (server_dispatch req.svc_meth req.args (store server)).0 ≡ replied bytes
    → wait_reply req.endname servername server polls ≡ reply_ok
    → is_server_dead req.endname servername server rn' ≡ false
    → (process_req req rn store draws polls rn').outcome ≡ success bytes
reliable_call_succeeds req rn store draws polls rn' servername server bytes rel e c p d w alive =
    let r : IsReached req rn draws = record {
      servername = servername;
      server = server;
      is_enabled = e;
      is_connected = c;
      is_present = p;
      is_kept = kept_when_reliable req rn draws.request rel;
    } in
    ap (λ q. q.outcome) (process_req-IsReached req rn store draws polls rn' r)
    ∙ execute_succeeds req servername server (read_endname_info req.endname rn) draws
        (server_dispatch req.svc_meth req.args (store server)) polls rn' bytes
        (info_reliable req rn rel) d w alive

not_both : {b : Bool} → b ≡ true → b ≡ false → ⊥
not_both t f = ground (arith)

-- A request fails, whatever else happens, when the server that the end reaches has been deleted by
-- the time of the last look at the network; the handler may have run.
pub deleted_server_fails :
    (req : ReqMsg) (rn : Network) (store : ℕ → Server) (draws : Draws) (polls : List Poll)
    (rn' : Network) (servername : String) (bytes : Bytes)
    → (read_endname_info req.endname rn).servername ≡ some servername
    → ¬ (
        (process_req req rn store draws polls (delete_server servername rn')).outcome
        ≡ success bytes)
deleted_server_fails req rn store draws polls rn' servername bytes c h =
    let a =
      success_means_executed req rn store draws polls (delete_server servername rn') bytes h in
    let same = some_inj (sym a.is_connected ∙ c) in
    not_both (deleted_is_dead req.endname servername a.server rn') (
      ap (λ n. is_server_dead req.endname n a.server (delete_server servername rn')) (sym same)
      ∙ a.is_alive)
