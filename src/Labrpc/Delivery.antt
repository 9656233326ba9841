-- ===== src/Labrpc/Delivery.antt =====
-- labrpc/labrpc.go: `Network.processReq`, the way of one request to the server and back. The
-- delays are left out: what another goroutine does to the network meanwhile is an argument.
use dist_kv_raft.Common.{
  ℕ, ◌+◌, ◌%◌, ◌^◌, ltb, if◌then◌else◌, Bool, true, false, ◌&&◌, not, Option, none, some, List, [],
  ◌∷◌, String, Bytes, length,
}
use dist_kv_raft.Labrpc.Network.{Network, EndInfo, read_endname_info, is_server_dead}
use dist_kv_raft.Labrpc.Dispatch.{Server, Dispatched, replied, fatal, server_dispatch}

pub record ReqMsg : Type 0 where
  pub endname : String
  pub svc_meth : Bytes
  pub args : Bytes

pub record ReplyMsg : Type 0 where
  pub is_ok : Bool
  pub reply : Bytes

unfoldable pub failure : ReplyMsg
failure = record { is_ok = false; reply = [] }

-- The numbers that `rand` gives, in the order of their uses.
pub record Draws : Type 0 where
  pub request : ℕ
  pub reply : ℕ
  pub reordering : ℕ

-- What the waiting loop's `select` meets: the handler has returned, or 100 ms have passed and the
-- network is as given.
pub data Poll : Type 0 where
  returned : Poll
  timed_out : Network → Poll

pub data Waited : Type 0 where
  reply_ok : Waited
  server_dead : Waited
  waiting : Waited

unfoldable pub wait_reply : String → String → ℕ → List Poll → Waited
wait_reply endname servername server [] = waiting
wait_reply endname servername server (returned ∷ ps) = reply_ok
wait_reply endname servername server (timed_out rn ∷ ps) =
    let rest = wait_reply endname servername server ps in
    if is_server_dead endname servername server rn then server_dead else rest

pub data Outcome : Type 0 where
  answered : ReplyMsg → Outcome
  still_waiting : Outcome
  process_ended : Outcome

-- `executed` is the server that ran the handler, and its state after that.
pub record Processed : Type 0 where
  pub outcome : Outcome
  pub executed : Option (ℕ × Server)
  pub network : Network

unfoldable pub is_dropped : Bool → ℕ → Bool
is_dropped reliable r = not reliable && ltb (r % 1000) 100

unfoldable pub is_delayed : Bool → ℕ → Bool
is_delayed long_reordering r = long_reordering && ltb (r % 900) 600

unfoldable pub send_reply : Bytes → Network → Network
send_reply bytes rn = record rn { bytes = (rn.bytes + length bytes) % 2 ^ 64 }

-- The part after the loop: the last look at the network `rn`, and the reply.
unfoldable pub finish :
    ReqMsg → String → ℕ → EndInfo → Draws → Bytes → Waited → Network → Outcome × Network
unfolding is_dropped is_delayed send_reply
finish req servername server info draws bytes waiting rn = (still_waiting, rn)
finish req servername server info draws bytes server_dead rn = (answered failure, rn)
finish req servername server info draws bytes reply_ok rn =
    let reply = answered (record { is_ok = true; reply = bytes }) in
    if is_server_dead req.endname servername server rn
    then (answered failure, rn)
    else if is_dropped info.reliable draws.reply
    then (answered failure, rn)
    else if is_delayed info.long_reordering draws.reordering
    then (reply, send_reply bytes rn)
    else (reply, send_reply bytes rn)

unfoldable pub execute :
    ReqMsg → String → ℕ → EndInfo → Draws → Dispatched × Server → List Poll → Network → Processed
execute req servername server info draws (fatal, rs) polls rn = record {
  outcome = process_ended;
  executed = some (server, rs);
  network = rn;
}
execute req servername server info draws (replied bytes, rs) polls rn =
    let done =
      finish req servername server info draws bytes (wait_reply req.endname servername server polls)
        rn in
    record { outcome = done.0; executed = some (server, rs); network = done.1 }

-- `store` holds the servers by address, `rn` is the network when the request comes, `rn'` when the
-- loop has ended.
unfoldable pub process_req :
    ReqMsg → Network → (ℕ → Server) → Draws → List Poll → Network → Processed
unfolding is_dropped
process_req req rn store draws polls rn' =
    let info = read_endname_info req.endname rn in
    let no_reply : Processed = record {
      outcome = answered failure;
      executed = none;
      network = rn';
    } in
    if info.enabled
    then elim info.servername [
      | none ↦ no_reply
      | some servername ↦ elim info.server [
        | none ↦ no_reply
        | some server ↦
            if is_dropped info.reliable draws.request
            then no_reply
            else execute req servername server info draws
                (server_dispatch req.svc_meth req.args (store server)) polls rn'
      ]
    ]
    else no_reply

-- What `ClientEnd.Call` comes to: it returns true with the decoded reply, or false, or the process
-- ends, or it waits still.
pub data Called (R : Type 0) : Type 0 where
  ok : R → Called R
  no_reply : Called R
  ended : Called R
  waits : Called R

-- What the caller makes of the message on its reply channel. `decode` is labgob's, `none` where it
-- fails.
unfoldable pub receive : {R : Type 0} → (Bytes → Option R) → Outcome → Called R
receive decode still_waiting = waits
receive decode process_ended = ended
receive decode (answered rep) =
    if rep.is_ok then elim (decode rep.reply) [ none ↦ ended | some r ↦ ok r ] else no_reply

-- `is_sent` says which way the first `select` goes: the network has taken the request, or it is
-- found to be cleaned up. `deliver` is the network's way with a request.
unfoldable pub call :
    {A R : Type 0}
    → (A → Bytes)
    → (Bytes → Option R)
    → (ReqMsg → Outcome)
    → Bool
    → String
    → Bytes
    → A
    → Called R
unfolding receive
call encode decode deliver is_sent endname svc_meth args =
    if is_sent
    then receive decode
        (deliver (record { endname = endname; svc_meth = svc_meth; args = encode args }))
    else no_reply
