-- ===== src/Labrpc/Network.antt =====
-- labrpc/labrpc.go: the state of the simulated network and the calls that change it. Names are
-- texts. A server is known by its address, since the code compares pointers.
use dist_kv_raft.Common.{
  ℕ, ◌+◌, ◌%◌, ◌^◌, ◌==◌, nat_eq, string_eq, Bool, true, false, ◌||◌, not, Option, none, some, [],
  String, Bytes, Dict, lookup, insert, remove, length,
}

-- `count` is an `int32`, as its bits, and `bytes` an `int64`.
pub record Network : Type 0 where
  pub reliable : Bool
  pub long_delays : Bool
  pub long_reordering : Bool
  pub ends : Dict String Bool
  pub enabled : Dict String Bool
  pub servers : Dict String (Option ℕ)
  pub connections : Dict String (Option String)
  pub count : ℕ
  pub bytes : ℕ
  pub is_done : Bool

unfoldable pub make_network : Network
make_network = record {
  reliable = true;
  long_delays = false;
  long_reordering = false;
  ends = [];
  enabled = [];
  servers = [];
  connections = [];
  count = 0;
  bytes = 0;
  is_done = false;
}

unfoldable pub cleanup : Network → Network
cleanup rn = record rn { is_done = true }

unfoldable pub set_reliable : Bool → Network → Network
set_reliable on rn = record rn { reliable = on }

unfoldable pub set_long_reordering : Bool → Network → Network
set_long_reordering on rn = record rn { long_reordering = on }

unfoldable pub set_long_delays : Bool → Network → Network
set_long_delays on rn = record rn { long_delays = on }

-- What a read of a missing key gives: `false`, and `nil`.
abbrev pub flag : Option Bool → Bool
flag none = false
flag (some b) = b

abbrev pub pointer {ℓ} : {A : Type ℓ} → Option (Option A) → Option A
pointer none = none
pointer (some p) = p

-- The names of the results of `readEndnameInfo`.
pub record EndInfo : Type 0 where
  pub enabled : Bool
  pub servername : Option String
  pub server : Option ℕ
  pub reliable : Bool
  pub long_reordering : Bool

unfoldable pub read_endname_info : String → Network → EndInfo
read_endname_info endname rn =
    let servername = pointer (lookup endname rn.connections) in
    record {
      enabled = flag (lookup endname rn.enabled);
      servername = servername;
      server = elim servername [ none ↦ none | some name ↦ pointer (lookup name rn.servers) ];
      reliable = rn.reliable;
      long_reordering = rn.long_reordering;
    }

abbrev pub same_server : Option ℕ → ℕ → Bool
same_server none server = false
same_server (some s) server = s == server

unfoldable pub is_server_dead : String → String → ℕ → Network → Bool
is_server_dead endname servername server rn =
    not (flag (lookup endname rn.enabled))
    || not (same_server (pointer (lookup servername rn.servers)) server)

-- `none` where `log.Fatalf` ends the process.
unfoldable pub make_end : String → Network → Option Network
make_end endname rn = elim (lookup endname rn.ends) [
  | some _ ↦ none
  | none ↦ some (record rn {
    ends = insert endname true rn.ends;
    enabled = insert endname false rn.enabled;
    connections = insert endname none rn.connections;
  })
]

unfoldable pub delete_end : String → Network → Option Network
delete_end endname rn = elim (lookup endname rn.ends) [
  | none ↦ none
  | some _ ↦ some (record rn {
    ends = remove endname rn.ends;
    enabled = remove endname rn.enabled;
    connections = remove endname rn.connections;
  })
]

unfoldable pub add_server : String → ℕ → Network → Network
add_server servername rs rn = record rn { servers = insert servername (some rs) rn.servers }

unfoldable pub delete_server : String → Network → Network
delete_server servername rn = record rn { servers = insert servername none rn.servers }

unfoldable pub connect : String → String → Network → Network
connect endname servername rn = record rn {
  connections = insert endname (some servername) rn.connections;
}

unfoldable pub enable : String → Bool → Network → Network
enable endname enabled rn = record rn { enabled = insert endname enabled rn.enabled }

-- What the network's goroutine notes of a request before it handles it.
unfoldable pub note_request : Bytes → Network → Network
note_request args rn = record rn {
  count = (rn.count + 1) % 2 ^ 32;
  bytes = (rn.bytes + length args) % 2 ^ 64;
}

unfoldable pub get_total_count : Network → ℕ
get_total_count rn = rn.count

unfoldable pub get_total_bytes : Network → ℕ
get_total_bytes rn = rn.bytes
