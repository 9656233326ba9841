-- ===== src/Labrpc/Calls.antt =====
-- labrpc/labrpc.go: `ClientEnd.Call` as its callers see it.
use dist_kv_raft.Common.{
  ℕ, Bool, true, false, Option, some, List, ◌≡◌, ap, sym, ◌∙◌, String, Bytes, Option-cases,
  Bool-cases, inl, inr, arith,
}
use dist_kv_raft.Labrpc.Network.{Network}
use dist_kv_raft.Labrpc.Dispatch.{Server}
use dist_kv_raft.Labrpc.Delivery.{
  ReqMsg, ReplyMsg, Draws, Poll, process_req, Outcome, answered, still_waiting, process_ended, ok,
  no_reply, ended, waits, receive, call,
}
use dist_kv_raft.Labrpc.Answers.{success, IsAnswered, success_means_executed}

failed_not_ok : {R : Type 0} (r : R) → ¬ (no_reply ≡ ok r)
failed_not_ok r h = ground (arith, h)

ended_not_ok : {R : Type 0} (r : R) → ¬ (ended ≡ ok r)
ended_not_ok r h = ground (arith, h)

waits_not_ok : {R : Type 0} (r : R) → ¬ (waits ≡ ok r)
waits_not_ok r h = ground (arith, h)

ok_inj : {R : Type 0} (a b : R) → ok a ≡ ok b → a ≡ b
ok_inj a b h = ground (arith, h)

received_answer :
    {R : Type 0} (decode : Bytes → Option R) (rep : ReplyMsg) (r : R)
    → receive decode (answered rep) ≡ ok r
    → (rep.is_ok ≡ true) × (decode rep.reply ≡ some r)
unfolding receive
received_answer decode rep r h = elim (Bool-cases rep.is_ok) [
  | inr e ↦ absurd (failed_not_ok r (sym (rw (receive, e)) ∙ h))
  | inl e ↦ elim (Option-cases (decode rep.reply)) [
    | inl d ↦ absurd (ended_not_ok r (sym (rw (receive, e, d)) ∙ h))
    | inr (x, d) ↦ (e, d ∙ ap some (ok_inj x r (sym (rw (receive, e, d)) ∙ h)))
  ]
]

received :
    {R : Type 0} (decode : Bytes → Option R) (o : Outcome) (r : R)
    → receive decode o ≡ ok r
    → (bytes : Bytes) × (o ≡ success bytes) × (decode bytes ≡ some r)
unfolding receive
received decode still_waiting r h = absurd (waits_not_ok r h)
received decode process_ended r h = absurd (ended_not_ok r h)
received decode (answered rep) r h =
    let (is_ok, decoded) = received_answer decode rep r h in
    (rep.reply, ap (λ b. answered (record { is_ok = b; reply = rep.reply })) is_ok, decoded)

-- Whatever happens on the way, a call that returns true has the decoding of a reply that the
-- handler of some server gave to the encoded arguments, and that server has run it.
pub call_returns_reply :
    {A R : Type 0} (encode : A → Bytes) (decode : Bytes → Option R) (rn : Network)
    (store : ℕ → Server) (draws : Draws) (polls : List Poll) (rn' : Network) (is_sent : Bool)
    (endname : String) (svc_meth : Bytes) (args : A) (r : R)
    → call encode decode
        (λ req. (process_req req rn store draws polls rn').outcome)
        is_sent
        endname
        svc_meth
        args
      ≡ ok r
    → (bytes : Bytes) × (decode bytes ≡ some r)
      × IsAnswered
          (record { endname = endname; svc_meth = svc_meth; args = encode args })
          rn
          store
          rn'
          (process_req
            (record { endname = endname; svc_meth = svc_meth; args = encode args })
            rn
            store
            draws
            polls
            rn')
          bytes
unfolding call
call_returns_reply encode decode rn store draws polls rn' false endname svc_meth args r h =
    absurd (failed_not_ok r h)
call_returns_reply encode decode rn store draws polls rn' true endname svc_meth args r h =
    let req : ReqMsg = record { endname = endname; svc_meth = svc_meth; args = encode args } in
    let (bytes, e, d) = received decode (process_req req rn store draws polls rn').outcome r h in
    (bytes, d, success_means_executed req rn store draws polls rn' bytes e)
