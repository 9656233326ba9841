-- ===== src/Raft/Leaders.antt =====
-- raft/config.go: checkOneLeader, checkTerms and checkNoLeader. What `GetState` answers is an
-- argument, a list with a place for each server; the waiting is left out.
mod Collect
mod Scan
pub mod Unique
pub mod Rounds
pub mod Terms
mod Examples
use dist_kv_raft.Common.{
  ℕ, zero, suc, ◌+◌, ltb, nat_beq, nat_eq, if◌then◌else◌, Bool, true, false, ◌&&◌, Option, none,
  some, List, [], ◌∷◌, ◌++◌, Dict, lookup, insert, length,
}

-- `cfg.connected[i]` and the answer of `cfg.rafts[i].GetState()`.
pub record View : Type 0 where
  pub connected : Bool
  pub term : ℕ
  pub leader : Bool

abbrev pub listed : Option (List ℕ) → List ℕ
listed none = []
listed (some servers) = servers

-- The loop that fills the map `leaders`, from server `i` on.
unfoldable pub collect : ℕ → List View → Dict ℕ (List ℕ) → Dict ℕ (List ℕ)
collect i [] leaders = leaders
collect i (v ∷ vs) leaders = collect (suc i) vs (
    if v.connected && v.leader
    then insert v.term (listed (lookup v.term leaders) ++ i ∷ []) leaders
    else leaders)

-- `lastTermWithLeader`, which is -1 as long as it is `none`.
abbrev pub later : ℕ → Option ℕ → Option ℕ
later term none = some term
later term (some last) = if ltb last term then some term else some last

-- The loop over the map; `none` where a term has two leaders and the test ends.
unfoldable pub scan_terms : Dict ℕ (List ℕ) → Option ℕ → Option (Option ℕ)
scan_terms [] last = some last
scan_terms ((term, servers) ∷ rest) last =
    let further = scan_terms rest (later term last) in
    if ltb 1 (length servers) then none else further

pub data Seen : Type 0 where
  fatal : Seen
  panics : Seen
  no_leader : Seen
  leader_is : ℕ → Seen

-- `leaders[lastTermWithLeader][0]`
abbrev pub first_of : Option (List ℕ) → Seen
first_of none = panics
first_of (some []) = panics
first_of (some (i ∷ others)) = leader_is i

abbrev pub leader_at : Option ℕ → Dict ℕ (List ℕ) → Seen
leader_at none leaders = panics
leader_at (some term) leaders = first_of (lookup term leaders)

abbrev pub answer_of : Option (Option ℕ) → Dict ℕ (List ℕ) → Seen
answer_of none leaders = fatal
answer_of (some last) [] = no_leader
answer_of (some last) (entry ∷ rest) = leader_at last (entry ∷ rest)

-- One iteration.
unfoldable pub look_once : List View → Seen
unfolding collect scan_terms
look_once views = let leaders = collect 0 views [] in answer_of (scan_terms leaders none) leaders

abbrev pub or_again : Seen → Option ℕ → Option ℕ
or_again fatal rest = none
or_again panics rest = none
or_again no_leader rest = rest
or_again (leader_is i) rest = some i

-- The iterations left, each with what the servers answer in it; `none` where the test ends.
unfoldable pub look_for_leader : List (List View) → Option ℕ
unfolding look_once
look_for_leader [] = none
look_for_leader (views ∷ later_views) = or_again (look_once views) (look_for_leader later_views)

-- With ten iterations, the first of them number 0.
unfoldable pub rounds : ℕ → ℕ → (ℕ → List View) → List (List View)
rounds zero iters at = []
rounds (suc n) iters at = at iters ∷ rounds n (suc iters) at

unfoldable pub check_one_leader : (ℕ → List View) → Option ℕ
unfolding look_for_leader rounds
check_one_leader at = look_for_leader (rounds 10 0 at)

abbrev pub agree : ℕ → Option ℕ → Option ℕ
agree xterm none = some xterm
agree xterm (some term) = if nat_beq term xterm then some term else none

-- `term` is -1 as long as it is `none`; the result is `none` where the test ends.
unfoldable pub terms_loop : List View → Option ℕ → Option (Option ℕ)
terms_loop [] term = some term
terms_loop (v ∷ vs) term = elim v.connected [
  | true ↦ elim (agree v.term term) [ none ↦ none | some t ↦ terms_loop vs (some t) ]
  | false ↦ terms_loop vs term
]

unfoldable pub check_terms : List View → Option (Option ℕ)
unfolding terms_loop
check_terms views = terms_loop views none

-- False where the test ends.
unfoldable pub check_no_leader : List View → Bool
check_no_leader [] = true
check_no_leader (v ∷ vs) = if v.connected && v.leader then false else check_no_leader vs
