-- ===== src/GrpcServer/Server/Stopped.antt =====
-- When `Shutdown` is called.
use mapper_framework_c.Prelude.{
  Option, none, some, ◌≡◌, refl, ap, ◌∙◌, ℕ, zero, suc, ◌+◌, ◌≤◌, Bool, true, false, Bool-cases,
  inl, inr, is_some, if◌then◌else◌, List, [], ◌∷◌, ◌++◌, if_holds, arith,
}
use mapper_framework_c.Prelude.CString.{Str, codes}
use mapper_framework_c.Common.Const.{success}
use mapper_framework_c.GrpcServer.Server.Balance.{Event, started, stopped, run, held}
use mapper_framework_c.GrpcServer.Server.{
  GrpcServer, Call, shutdown, wait, Surroundings, Started, unlink, build_and_start, serve, start,
  stop, wait_socket, replaced,
}

abbrev is_shutdown : Call → Bool
is_shutdown shutdown = true
is_shutdown _ = false

abbrev pub shutdowns : List Call → ℕ
shutdowns [] = 0
shutdowns (c ∷ cs) = if is_shutdown c then suc (shutdowns cs) else shutdowns cs

shutdowns-append : (xs ys : List Call) → shutdowns (xs ++ ys) ≡ shutdowns xs + shutdowns ys
shutdowns-append [] ys = omega arith
shutdowns-append (x ∷ xs) ys = ground (arith, shutdowns-append xs ys)

wait_socket-shutdowns :
    (stat_ok : ℕ → Bool) (path : Str) (n polls : ℕ)
    → shutdowns (wait_socket stat_ok path n polls) ≡ 0
unfolding wait_socket
wait_socket-shutdowns stat_ok path zero polls = refl
wait_socket-shutdowns stat_ok path (suc n) polls =
    ground (arith, wait_socket-shutdowns stat_ok path n (suc polls))

-- No call is a `Shutdown`, the flag stays, and where the code is 0 there is a server behind it.
record NoStop (s : GrpcServer) (r : Started) : Type 0 where
  pub quiet : shutdowns r.calls ≡ 0
  pub same : r.server.stopped ≡ s.stopped
  pub held : r.code ≡ success → r.server.address ≡ some (codes "unix://" ++ r.server.cfg.sock_path)

shutdowns-replaced : (o : Option Str) → shutdowns (replaced o) ≡ 0
shutdowns-replaced none = refl
shutdowns-replaced (some address) = refl

serve-NoStop :
    (env : Surroundings) (s : GrpcServer) (before : List Call)
    → shutdowns before ≡ 0
    → NoStop s (serve env s before)
unfolding serve
serve-NoStop env s before h =
    if_holds (NoStop s) env.build_ok (λ y. record { quiet = built; same = refl; held = λ c. refl })
      (λ n. record { quiet = assigned; same = refl; held = λ c. cc })
  where
    build : Call
    build = build_and_start (codes "unix://" ++ s.cfg.sock_path)

    polls : List Call
    polls = wait_socket env.stat_ok s.cfg.sock_path 100 0

    assigned : shutdowns (before ++ (build ∷ replaced s.address)) ≡ 0
    assigned =
        rw (shutdowns-append before (build ∷ replaced s.address), h)
          (omega (arith, shutdowns-replaced s.address))

    built : shutdowns ((before ++ (build ∷ replaced s.address)) ++ (polls ++ wait ∷ [])) ≡ 0
    built =
        rw
          (
            shutdowns-append (before ++ (build ∷ replaced s.address)) (polls ++ wait ∷ []),
            assigned,
            shutdowns-append polls (wait ∷ []),
            wait_socket-shutdowns env.stat_ok s.cfg.sock_path 100 0,
          )
          refl

start-NoStop : (env : Surroundings) (s : GrpcServer) → NoStop s (start env s)
unfolding start
start-NoStop env s =
    if_holds (NoStop s) env.exists
      (λ y.
        if_holds (NoStop s) env.unlink_ok
          (λ y. serve-NoStop env s (unlink s.cfg.sock_path ∷ []) refl)
          (λ n. record { quiet = refl; same = refl; held = λ c. cc }))
      (λ n. serve-NoStop env s [] refl)

stop-stopped : (s : GrpcServer) → s.stopped ≡ true → stop s ≡ (s, [])
unfolding stop
stop-stopped s h =
    ap
      (λ (b : Bool).
        if b
        then (s, [])
        else (record s { stopped = true }, if is_some s.address then shutdown ∷ [] else []))
      h

run-NoStop :
    (events : List Event) (s : GrpcServer)
    → s.stopped ≡ true
    → (shutdowns (run events s).1 ≡ 0) × ((run events s).0.stopped ≡ true)
run-NoStop [] s h = (refl, h)
run-NoStop (started env ∷ es) s h =
    let now = start-NoStop env s in
    let (later, kept) = run-NoStop es (start env s).server (now.same ∙ h) in
    (
      rw (shutdowns-append (start env s).calls (run es (start env s).server).1, now.quiet)
          (omega (arith, later)),
      kept,
    )
run-NoStop (stopped ∷ es) s h = rw (stop-stopped s h) (run-NoStop es s h)

abbrev pub stops : ℕ → List Event
stops zero = []
stops (suc n) = stopped ∷ stops n

stop-once :
    (s : GrpcServer) → s.stopped ≡ false → (shutdowns (stop s).1 ≤ 1) × ((stop s).0.stopped ≡ true)
unfolding stop
stop-once s h = ground arith

-- Whatever the order of the starts and stops, `Shutdown` is called at most once.
pub run-once : (events : List Event) (s : GrpcServer) → shutdowns (run events s).1 ≤ 1
run-once [] s = omega arith
run-once (started env ∷ es) s =
    rw
      (
        shutdowns-append (start env s).calls (run es (start env s).server).1,
        (start-NoStop env s).quiet,
      )
      (omega (arith, run-once es (start env s).server))
run-once (stopped ∷ es) s = elim (Bool-cases s.stopped) [
  | inl y ↦ rw (stop-stopped s y) (run-once es s)
  | inr n ↦
      let (one, left) = stop-once s n in
      rw (shutdowns-append (stop s).1 (run es (stop s).0).1, (run-NoStop es (stop s).0 left).0)
        (omega (arith, one))
]
