-- ===== src/GrpcServer/Server/Balance.antt =====
-- Which servers are ended by the assignment to `server_`.
use mapper_framework_c.Prelude.{
  ◌≡◌, refl, ℕ, zero, suc, ◌+◌, Bool, true, false, is_some, if◌then◌else◌, Option, none, some, List,
  [], ◌∷◌, ◌++◌, if_holds, arith,
}
use mapper_framework_c.Prelude.CString.{Str, codes}
use mapper_framework_c.GrpcServer.Server.{
  GrpcServer, Call, wait, destroy, Surroundings, Started, unlink, build_and_start, serve, start,
  stop, wait_socket, replaced,
}

-- What a program does with a server, in any order.
pub data Event : Type 0 where
  started : Surroundings → Event
  stopped : Event

abbrev pub step : Event → GrpcServer → GrpcServer × List Call
step (started env) s = ((start env s).server, (start env s).calls)
step stopped s = stop s

abbrev pub run : List Event → GrpcServer → GrpcServer × List Call
run [] s = (s, [])
run (e ∷ es) s = ((run es (step e s).0).0, (step e s).1 ++ (run es (step e s).0).1)

abbrev pub count_calls : (Call → Bool) → List Call → ℕ
count_calls p [] = 0
count_calls p (c ∷ cs) = if p c then suc (count_calls p cs) else count_calls p cs

abbrev pub is_wait : Call → Bool
is_wait wait = true
is_wait _ = false

abbrev pub is_destroy : Call → Bool
is_destroy (destroy address) = true
is_destroy _ = false

abbrev pub held : Option Str → ℕ
held none = 0
held (some address) = 1

count_calls-append :
    (p : Call → Bool) (xs ys : List Call)
    → count_calls p (xs ++ ys) ≡ count_calls p xs + count_calls p ys
count_calls-append p [] ys = omega arith
count_calls-append p (x ∷ xs) ys = ground (arith, count_calls-append p xs ys)

-- As many servers were there or came, by a wait for them, as were destroyed or are there at the end.
abbrev Balanced : GrpcServer → List Call → GrpcServer → Type 0
Balanced s calls after =
    count_calls is_wait calls + held s.address ≡ count_calls is_destroy calls + held after.address

wait_socket-none :
    (stat_ok : ℕ → Bool) (path : Str) (n polls : ℕ)
    → (count_calls is_wait (wait_socket stat_ok path n polls) ≡ 0)
      × (count_calls is_destroy (wait_socket stat_ok path n polls) ≡ 0)
unfolding wait_socket
wait_socket-none stat_ok path zero polls = (refl, refl)
wait_socket-none stat_ok path (suc n) polls =
    ground (arith, wait_socket-none stat_ok path n (suc polls))

replaced-held :
    (o : Option Str)
    → (count_calls is_wait (replaced o) ≡ 0) × (count_calls is_destroy (replaced o) ≡ held o)
replaced-held none = (refl, refl)
replaced-held (some address) = (refl, refl)

abbrev StartBalanced : GrpcServer → Started → Type 0
StartBalanced s r = Balanced s r.calls r.server

serve-Balanced :
    (env : Surroundings) (s : GrpcServer) (before : List Call)
    → count_calls is_wait before ≡ 0
    → count_calls is_destroy before ≡ 0
    → StartBalanced s (serve env s before)
unfolding serve
serve-Balanced env s before h g =
    if_holds (StartBalanced s) env.build_ok (λ y. built) (λ n. unbuilt)
  where
    put : List Call
    put = build_and_start (codes "unix://" ++ s.cfg.sock_path) ∷ replaced s.address

    polls : List Call
    polls = wait_socket env.stat_ok s.cfg.sock_path 100 0

    unbuilt :
        count_calls is_wait (before ++ put) + held s.address
        ≡ count_calls is_destroy (before ++ put) + 0
    unbuilt = omega (
      arith,
      h,
      g,
      replaced-held s.address,
      count_calls-append is_wait before put,
      count_calls-append is_destroy before put,
    )

    built :
        count_calls is_wait ((before ++ put) ++ (polls ++ wait ∷ [])) + held s.address
        ≡ count_calls is_destroy ((before ++ put) ++ (polls ++ wait ∷ [])) + 1
    built = omega (
      arith,
      unbuilt,
      wait_socket-none env.stat_ok s.cfg.sock_path 100 0,
      count_calls-append is_wait (before ++ put) (polls ++ wait ∷ []),
      count_calls-append is_destroy (before ++ put) (polls ++ wait ∷ []),
      count_calls-append is_wait polls (wait ∷ []),
      count_calls-append is_destroy polls (wait ∷ []),
    )

start-Balanced : (env : Surroundings) (s : GrpcServer) → StartBalanced s (start env s)
unfolding start
start-Balanced env s =
    if_holds (StartBalanced s) env.exists
      (λ y.
        if_holds (StartBalanced s) env.unlink_ok
          (λ y. serve-Balanced env s (unlink s.cfg.sock_path ∷ []) refl refl) (λ n. refl))
      (λ n. serve-Balanced env s [] refl refl)

stop-Balanced : (s : GrpcServer) → Balanced s (stop s).1 (stop s).0
unfolding stop
stop-Balanced s =
    if_holds Kept s.stopped (λ y. refl)
      (λ n. if_holds Called (is_some s.address) (λ y. refl) (λ n. refl))
  where
    Kept : GrpcServer × List Call → Type 0
    Kept r = Balanced s r.1 r.0

    Called : List Call → Type 0
    Called calls = Balanced s calls s

step-Balanced : (e : Event) (s : GrpcServer) → Balanced s (step e s).1 (step e s).0
step-Balanced (started env) s = start-Balanced env s
step-Balanced stopped s = stop-Balanced s

pub run-Balanced :
    (events : List Event) (s : GrpcServer)
    → count_calls is_wait (run events s).1 + held s.address
      ≡ count_calls is_destroy (run events s).1 + held (run events s).0.address
run-Balanced [] s = refl
run-Balanced (e ∷ es) s = omega (
  arith,
  step-Balanced e s,
  run-Balanced es (step e s).0,
  count_calls-append is_wait (step e s).1 (run es (step e s).0).1,
  count_calls-append is_destroy (step e s).1 (run es (step e s).0).1,
)
