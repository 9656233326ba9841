-- ===== src/Labrpc/Dispatch.antt =====
-- labrpc/labrpc.go: services, their methods, and the way of a request to its method.
use dist_kv_raft.Common.{
  ℕ, suc, ◌+◌, ◌==◌, nat_eq, nat_beq, bytes_eq, beq_refl, if◌then◌else◌, ◌≡◌, refl, ap, ◌∙◌, Bool,
  false, ◌&&◌, ◌||◌, not, Option, none, some, List, [], ◌∷◌, ◌++◌, Bytes, Dict, lookup, insert,
  lookup-insert, length, take, drop, All, arith,
}

-- A method as reflection shows it. `run` is `function.Call` on the receiver as it stands, with
-- the argument decoded and the reply encoded: the handlers are not this package's code.
pub record Method : Type 0 where
  pub name : Bytes
  pub is_exported : Bool
  pub num_in : ℕ
  pub reply_is_pointer : Bool
  pub num_out : ℕ
  pub run : Bytes → Bytes

pub record Service : Type 0 where
  pub name : Bytes
  pub methods : Dict Bytes Method

pub record Server : Type 0 where
  pub services : Dict Bytes Service
  pub count : ℕ

-- The test of `MakeService`, the other way round: the method looks like a handler.
unfoldable pub is_suitable : Method → Bool
is_suitable m =
    not (not m.is_exported || not (m.num_in == 3) || not m.reply_is_pointer || not (m.num_out == 0))

unfoldable pub suitable_methods : List Method → Dict Bytes Method → Dict Bytes Method
unfolding is_suitable
suitable_methods [] found = found
suitable_methods (m ∷ ms) found =
    suitable_methods ms (if is_suitable m then insert m.name m found else found)

unfoldable pub make_service : Bytes → List Method → Service
unfolding suitable_methods
make_service name methods = record { name = name; methods = suitable_methods methods [] }

unfoldable pub make_server : Server
make_server = record { services = []; count = 0 }

unfoldable pub add_service : Service → Server → Server
add_service svc rs = record rs { services = insert svc.name svc rs.services }

-- `strings.LastIndex(s, ".")`, `none` for -1.
unfoldable pub last_dot : Bytes → Option ℕ
last_dot [] = none
last_dot (c ∷ cs) = elim (last_dot cs) [
  | some i ↦ some (suc i)
  | none ↦ if c == b'.' then some 0 else none
]

-- `fatal` is the end of the process, by `log.Fatalf` or by the panic of a slice.
pub data Dispatched : Type 0 where
  replied : Bytes → Dispatched
  fatal : Dispatched

unfoldable pub service_dispatch : Bytes → Bytes → Service → Dispatched
service_dispatch methname args svc = elim (lookup methname svc.methods) [
  | some method ↦ replied (method.run args)
  | none ↦ fatal
]

unfoldable pub get_count : Server → ℕ
get_count rs = rs.count

unfoldable pub server_dispatch : Bytes → Bytes → Server → Dispatched × Server
unfolding last_dot service_dispatch
server_dispatch svc_meth args rs =
    let rs' = record rs { count = rs.count + 1 } in
    elim (last_dot svc_meth) [
      | none ↦ (fatal, rs')
      | some dot ↦
          let service_name = take dot svc_meth in
          let method_name = drop (suc dot) svc_meth in
          elim (lookup service_name rs.services) [
            | some service ↦ (service_dispatch method_name args service, rs')
            | none ↦ (fatal, rs')
          ]
    ]

abbrev HasNoDot : Bytes → Type 0
HasNoDot = All (λ c. nat_beq c b'.' ≡ false)

last_dot-none : (cs : Bytes) → HasNoDot cs → last_dot cs ≡ none
unfolding last_dot
last_dot-none [] h = refl
last_dot-none (c ∷ cs) h = ground (arith, h.0, last_dot-none cs h.1)

last_dot-append : (xs ys : Bytes) → HasNoDot ys → last_dot (xs ++ b'.' ∷ ys) ≡ some (length xs)
unfolding last_dot
last_dot-append [] ys h = ground (arith, last_dot-none ys h)
last_dot-append (x ∷ xs) ys h = ground (arith, last_dot-append xs ys h)

take-length : (xs ys : Bytes) → take (length xs) (xs ++ ys) ≡ xs
take-length [] ys = refl
take-length (x ∷ xs) ys = ap (◌∷◌ x) (take-length xs ys)

drop-length : (xs ys : Bytes) (y : ℕ) → drop (suc (length xs)) (xs ++ y ∷ ys) ≡ ys
drop-length [] ys y = refl
drop-length (x ∷ xs) ys y = drop-length xs ys y

-- The last suitable method of a name.
abbrev pub handler_of : Bytes → List Method → Option Method → Option Method
handler_of name [] found = found
handler_of name (m ∷ ms) found =
    handler_of name ms (if is_suitable m && m.name == name then some m else found)

lookup-suitable_methods :
    (name : Bytes) (ms : List Method) (found : Dict Bytes Method)
    → lookup name (suitable_methods ms found) ≡ handler_of name ms (lookup name found)
unfolding suitable_methods
lookup-suitable_methods name [] found = refl
lookup-suitable_methods name (m ∷ ms) found =
    lookup-suitable_methods name ms (if is_suitable m then insert m.name m found else found)
    ∙ ap (handler_of name ms) (ground (arith, lookup-insert m.name name m found))

abbrev pub answer : Option Method → Bytes → Dispatched
answer none args = fatal
answer (some m) args = replied (m.run args)

service_dispatch-answer :
    (method args : Bytes) (svc : Service) (h : Option Method)
    → lookup method svc.methods ≡ h
    → service_dispatch method args svc ≡ answer h args
unfolding service_dispatch
service_dispatch-answer method args svc none e = rw (e, service_dispatch)
service_dispatch-answer method args svc (some m) e = rw (e, service_dispatch)

dispatch_step :
    (svc_meth service method args : Bytes) (dot : ℕ) (svc : Service) (rs : Server)
    → last_dot svc_meth ≡ some dot
    → take dot svc_meth ≡ service
    → drop (suc dot) svc_meth ≡ method
    → lookup service rs.services ≡ some svc
    → server_dispatch svc_meth args rs
      ≡ (service_dispatch method args svc, record rs { count = rs.count + 1 })
unfolding server_dispatch
dispatch_step svc_meth service method args dot svc rs d t m l = rw (server_dispatch, d, t, l, m)

added_service :
    (name : Bytes) (methods : List Method) (rs : Server)
    → lookup name (add_service (make_service name methods) rs).services
      ≡ some (make_service name methods)
unfolding add_service make_service
added_service name methods rs =
    lookup-insert name name (make_service name methods) rs.services
    ∙ ap (λ b. if b then some (make_service name methods) else lookup name rs.services)
        (beq_refl name)

made_methods :
    (name method : Bytes) (methods : List Method)
    → lookup method (make_service name methods).methods ≡ handler_of method methods none
unfolding make_service lookup
made_methods name method methods = lookup-suitable_methods method methods []

-- A request for "S.M", with no dot in M, to a server whose service S was made from `methods`: it
-- is counted, and runs M if M is exported, takes two arguments besides the receiver, the second a
-- pointer, and returns nothing; any other M ends the process.
pub dispatch_finds_method :
    (service method args : Bytes) (methods : List Method) (rs : Server)
    → HasNoDot method
    → server_dispatch
        (service ++ b'.' ∷ method)
        args
        (add_service (make_service service methods) rs)
      ≡ (
        answer (handler_of method methods none) args,
        record (add_service (make_service service methods) rs) { count = rs.count + 1 },
      )
unfolding add_service
dispatch_finds_method service method args methods rs h =
    dispatch_step (service ++ b'.' ∷ method) service method args (length service)
      (make_service service methods) (add_service (make_service service methods) rs)
      (last_dot-append service method h) (take-length service (b'.' ∷ method))
      (drop-length service method b'.') (added_service service methods rs)
    ∙ ap (λ x. (x, record (add_service (make_service service methods) rs) { count = rs.count + 1 }))
        (service_dispatch-answer method args (make_service service methods)
          (handler_of method methods none) (made_methods service method methods))
