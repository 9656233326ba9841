-- ===== src/Shardctrler/Client/Loop.antt =====
-- shardctrler/client.go: the loop that Query, Join, Leave and Move have in common, which tries
-- each server until one answers and is the leader.
use dist_kv_raft.Common.{
  ℕ, zero, suc, ◌+◌, ◌≤◌, Option, none, some, List, [], ◌∷◌, ◌++◌, String, Has, inl, inr, ◌≡◌, refl,
  sym, ◌∙◌, ap, length, arith, Option-cases, none≢some,
}

-- `result` is what the loop returned, if it did; `sent` are the calls it made, `next` the number
-- of the next attempt and `args` the arguments as they then are.
pub record Tried (A B : Type 0) : Type 0 where
  pub result : Option B
  pub sent : List (String × A)
  pub next : ℕ
  pub args : A

-- `stamp` is what the loop's body does to the arguments before a call, `answer` the test of the
-- reply with the value that is returned.
module _ {A B R : Type 0} (call : ℕ → String → A → Option R) (answer : R → Option B)
    (stamp : ℕ → A → A) where
  -- `ok && reply.WrongLeader == false`
  unfoldable pub reply_of : ℕ → String → A → Option B
  reply_of n srv args = elim (call n srv args) [ none ↦ none | some r ↦ answer r ]

  unfoldable pub try_servers : List String → ℕ → A → Tried A B
  unfolding reply_of
  try_servers [] n args = record { result = none; sent = []; next = n; args = args }
  try_servers (srv ∷ srvs) n args =
      let args' = stamp n args in
      let rest = try_servers srvs (suc n) args' in
      elim (reply_of n srv args') [
        | some b ↦ record { result = some b; sent = (srv, args') ∷ []; next = suc n; args = args' }
        | none ↦ record rest { sent = (srv, args') ∷ rest.sent }
      ]

  unfoldable pub try_rounds : ℕ → List String → ℕ → A → Tried A B
  try_rounds zero servers n args = record { result = none; sent = []; next = n; args = args }
  try_rounds (suc rounds) servers n args =
      let round = try_servers servers n args in
      let rest = try_rounds rounds servers round.next round.args in
      elim round.result [ some b ↦ round | none ↦ record rest { sent = round.sent ++ rest.sent } ]

  -- From attempt `N` on, `srv` answers as the leader.
  abbrev pub IsUpFrom : ℕ → String → Type 0
  IsUpFrom N srv = (n : ℕ) (args : A) → N ≤ n → ¬ (reply_of n srv args ≡ none)

  pub round_returned :
      (srv : String) (srvs : List String) (n : ℕ) (args : A) (b : B)
      → reply_of n srv (stamp n args) ≡ some b
      → try_servers (srv ∷ srvs) n args ≡ record {
        result = some b;
        sent = (srv, stamp n args) ∷ [];
        next = suc n;
        args = stamp n args;
      }
  unfolding try_servers
  round_returned srv srvs n args b e = rw (try_servers, e)

  pub round_goes_on :
      (srv : String) (srvs : List String) (n : ℕ) (args : A)
      → reply_of n srv (stamp n args) ≡ none
      → try_servers (srv ∷ srvs) n args ≡ (
          let rest = try_servers srvs (suc n) (stamp n args) in
          record rest { sent = (srv, stamp n args) ∷ rest.sent })
  unfolding try_servers
  round_goes_on srv srvs n args e = rw (try_servers, e)

  round_returns :
      (N : ℕ) (srv : String) (servers : List String) (n : ℕ) (args : A)
      → IsUpFrom N srv
      → N ≤ n
      → Has srv servers
      → ¬ ((try_servers servers n args).result ≡ none)
  round_returns N srv [] n args up le h = absurd h
  round_returns N srv (s ∷ ss) n args up le h = elim (Option-cases (reply_of n s (stamp n args))) [
    | inr (b, e) ↦ λ z. none≢some (sym z ∙ ap (λ t. t.result) (round_returned s ss n args b e))
    | inl e ↦ elim h [
      | inl same ↦ absurd (up n (stamp n args) le (ap (λ s. reply_of n s (stamp n args)) same ∙ e))
      | inr h' ↦ λ z.
          round_returns N srv ss (suc n) (stamp n args) up (omega arith) h'
            (sym (ap (λ t. t.result) (round_goes_on s ss n args e)) ∙ z)
    ]
  ]

  round_advances :
      (servers : List String) (n : ℕ) (args : A)
      → (try_servers servers n args).result ≡ none
      → (try_servers servers n args).next ≡ n + length servers
  unfolding try_servers
  round_advances [] n args h = ground arith
  round_advances (s ∷ ss) n args h = elim (Option-cases (reply_of n s (stamp n args))) [
    | inr (b, e) ↦ absurd (none≢some (sym h ∙ ap (λ t. t.result) (round_returned s ss n args b e)))
    | inl e ↦
        let on = round_goes_on s ss n args e in
        ap (λ t. t.next) on
        ∙ round_advances ss (suc n) (stamp n args) (sym (ap (λ t. t.result) on) ∙ h)
        ∙ omega arith
  ]

  pub loop_returned :
      (rounds : ℕ) (servers : List String) (n : ℕ) (args : A) (b : B)
      → (try_servers servers n args).result ≡ some b
      → try_rounds (suc rounds) servers n args ≡ try_servers servers n args
  unfolding try_rounds
  loop_returned rounds servers n args b e = simp (try_rounds, e)

  pub loop_goes_on :
      (rounds : ℕ) (servers : List String) (n : ℕ) (args : A)
      → (try_servers servers n args).result ≡ none
      → try_rounds (suc rounds) servers n args ≡ (
          let round = try_servers servers n args in
          let rest = try_rounds rounds servers round.next round.args in
          record rest { sent = round.sent ++ rest.sent })
  unfolding try_rounds
  loop_goes_on rounds servers n args e = rw (try_rounds, e)

  some_server : (srv : String) (servers : List String) → Has srv servers → 1 ≤ length servers
  some_server srv [] h = absurd h
  some_server srv (s ∷ ss) h = omega arith

  -- A loop over servers of which one is the leader and answers, from attempt N on, returns within
  -- N + 1 rounds.
  pub loop_returns :
      (N : ℕ) (srv : String) (servers : List String) (rounds n : ℕ) (args : A)
      → IsUpFrom N srv
      → Has srv servers
      → N ≤ n + rounds
      → ¬ ((try_rounds (suc rounds) servers n args).result ≡ none)
  loop_returns N srv servers zero n args up h le =
      elim (Option-cases (try_servers servers n args).result) [
        | inl e ↦ absurd (round_returns N srv servers n args up (omega arith) h e)
        | inr (b, e) ↦
            λ z. none≢some (sym z ∙ ap (λ t. t.result) (loop_returned 0 servers n args b e) ∙ e)
      ]
  loop_returns N srv servers (suc rounds) n args up h le =
      elim (Option-cases (try_servers servers n args).result) [
        | inr (b, e) ↦ λ z.
            none≢some
              (sym z ∙ ap (λ t. t.result) (loop_returned (suc rounds) servers n args b e) ∙ e)
        | inl e ↦ λ z.
            let round = try_servers servers n args in
            let next = round_advances servers n args e in
            let one = some_server srv servers h in
            loop_returns N srv servers rounds round.next round.args up h (omega arith)
              (sym (ap (λ t. t.result) (loop_goes_on (suc rounds) servers n args e)) ∙ z)
      ]

  -- Where a value that the loop returns comes from.
  pub record IsAnsweredBy (servers : List String) (b : B) : Type 0 where
    pub attempt : ℕ
    pub srv : String
    pub args : A
    pub is_server : Has srv servers
    pub is_reply : reply_of attempt srv args ≡ some b

  answered_later :
      (srv : String) (ss : List String) (b : B) → IsAnsweredBy ss b → IsAnsweredBy (srv ∷ ss) b
  answered_later srv ss b a = record {
    attempt = a.attempt;
    srv = a.srv;
    args = a.args;
    is_server = inr a.is_server;
    is_reply = a.is_reply;
  }

  round_answered :
      (servers : List String) (n : ℕ) (args : A) (b : B)
      → (try_servers servers n args).result ≡ some b
      → IsAnsweredBy servers b
  unfolding try_servers
  round_answered [] n args b h = absurd (none≢some h)
  round_answered (s ∷ ss) n args b h = elim (Option-cases (reply_of n s (stamp n args))) [
    | inl e ↦ answered_later s ss b (
        round_answered ss (suc n) (stamp n args) b
          (sym (ap (λ t. t.result) (round_goes_on s ss n args e)) ∙ h))
    | inr (c, e) ↦ record {
      attempt = n;
      srv = s;
      args = stamp n args;
      is_server = inl refl;
      is_reply = e ∙ sym (ap (λ t. t.result) (round_returned s ss n args c e)) ∙ h;
    }
  ]

  -- What the loop returns is the answer of one of the servers, as the leader.
  pub loop_answered :
      (rounds : ℕ) (servers : List String) (n : ℕ) (args : A) (b : B)
      → (try_rounds rounds servers n args).result ≡ some b
      → IsAnsweredBy servers b
  unfolding try_rounds
  loop_answered zero servers n args b h = absurd (none≢some h)
  loop_answered (suc rounds) servers n args b h =
      let round = try_servers servers n args in
      elim (Option-cases round.result) [
        | inl e ↦
            loop_answered rounds servers round.next round.args b
              (sym (ap (λ t. t.result) (loop_goes_on rounds servers n args e)) ∙ h)
        | inr (c, e) ↦
            round_answered servers n args b
              (sym (ap (λ t. t.result) (loop_returned rounds servers n args c e)) ∙ h)
      ]
