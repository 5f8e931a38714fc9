-- ===== src/Command/Service/Order.antt =====
-- `EnovaService` of enova/entry/command/pilot.py: its four services, one after another.
use enova.Prelude.{
  ◌≡◌, refl, ◌∙◌, ap, Bool, false, [], ◌∷◌, Option, none, some, if◌then◌else◌, str_eq,
}
use enova.Value.{Value, bool, text, Fields, end, field, get}
use enova.Constant.{DeployMode, deploy_mode}
use enova.Command.Compose.{Desk, Action, or_fail, Helper, ◌>>=◌, ◌>>◌}
use enova.Command.Service.{
  made_helper, Site, helper, nginx, webui_nginx, proxy_run, proxy_stop, monitor_run, monitor_stop,
  app_run, app_stop, record_args,
}

-- The arguments: `failed_with_stop`, and the dict `kwars`. `serving` is `CONFIG.serving`.
pub record Started : Type 0 where
  pub failed_with_stop : Bool
  pub kwars : Fields
  pub serving_host : Value
  pub serving_port : Value

-- The cached properties are new helpers, which the first use of each makes.
abbrev pub run_nginx : Site → Started → Action (Unit {0})
run_nginx s a = helper s >>= λ h. proxy_run s nginx h a.serving_host a.serving_port

abbrev pub run_webui_nginx : Site → Started → Action (Unit {0})
run_webui_nginx s a = helper s >>= λ h. proxy_run s webui_nginx h a.serving_host a.serving_port

abbrev pub run_monitor : Site → Action (Unit {0})
run_monitor s = helper s >>= λ h. monitor_run s h

abbrev is_app : Option Value → Bool
is_app (some (text t)) = str_eq t "enova_app"
is_app _ = false

abbrev app_with_port : Site → Helper → Started → Value → Value → Action (Unit {0})
app_with_port s h a host port =
    app_run s h (deploy_mode.value DeployMode.compose) host port
      (is_app (get "restart_service" a.kwars))

abbrev app_with_host : Site → Helper → Started → Value → Action (Unit {0})
app_with_host s h a host = or_fail (get "enova_app_port" a.kwars) >>= λ v.
    or_fail (s.int_of v) >>= app_with_port s h a host

abbrev pub run_app : Site → Started → Action (Unit {0})
run_app s a = helper s >>= λ h. or_fail (get "enova_app_host" a.kwars) >>= app_with_host s h a

-- `try: run() except Exception: if failed_with_stop: stop()`.
abbrev pub handled : Bool → Action (Unit {0}) → Option (Unit {0}) × Desk → Option (Unit {0}) × Desk
handled failed_with_stop stop (some _, d) = (some tt, d)
handled failed_with_stop stop (none, d) = if failed_with_stop then stop d else (some tt, d)

abbrev pub attempt : Bool → Action (Unit {0}) → Action (Unit {0}) → Action (Unit {0})
attempt failed_with_stop run stop d = handled failed_with_stop stop (run d)

abbrev stop_nginx : Site → Action (Unit {0})
stop_nginx s = helper s >>= λ h. proxy_stop s nginx h

abbrev stop_webui_nginx : Site → Action (Unit {0})
stop_webui_nginx s = helper s >>= λ h. proxy_stop s webui_nginx h

abbrev stop_monitor : Site → Action (Unit {0})
stop_monitor s = helper s >>= λ h. monitor_stop s h

abbrev stop_app : Site → Action (Unit {0})
stop_app s = helper s >>= λ h. app_stop s h (deploy_mode.value DeployMode.compose)

-- What is recorded of the arguments: `kwars` is not among them.
abbrev pub recorded : Site → Started → Action (Unit {0})
recorded s a =
    record_args s "EnovaService" "run" ("self" ∷ "failed_with_stop" ∷ [])
      (field "failed_with_stop" (bool a.failed_with_stop) end)

-- What a failed start is followed by uses the helper that the start has made.
unfoldable pub run : Site → Started → Action (Unit {0})
run s a =
    recorded s a
    >> attempt a.failed_with_stop (run_nginx s a) (proxy_stop s nginx (made_helper s))
    >> attempt a.failed_with_stop (run_webui_nginx s a) (proxy_stop s webui_nginx (made_helper s))
    >> attempt a.failed_with_stop (run_monitor s) (monitor_stop s (made_helper s))
    >> attempt a.failed_with_stop (run_app s a)
        (app_stop s (made_helper s) (deploy_mode.value DeployMode.compose))

-- An exception of one ends it.
unfoldable pub stop : Site → Action (Unit {0})
stop s = stop_nginx s >> stop_webui_nginx s >> stop_monitor s >> stop_app s

recorded-some : (s : Site) (a : Started) (d : Desk) → recorded s a d ≡ (some tt, (recorded s a d).1)
unfolding record_args
recorded-some s a d = refl

handled_quiet :
    (stop : Action (Unit {0})) (p : Option (Unit {0}) × Desk)
    → handled false stop p ≡ (some tt, p.1)
handled_quiet stop (some _, d) = refl
handled_quiet stop (none, d) = refl

then_attempt :
    {f : Bool} (m run stop : Action (Unit {0})) {d d1 : Desk}
    → f ≡ false
    → m d ≡ (some tt, d1)
    → (m >> attempt f run stop) d ≡ (some tt, (run d1).1)
then_attempt {f = f} m run stop {d} {d1} quiet h =
    ap (λ (p : Option (Unit {0}) × Desk). ◌>>=◌ (λ _. p) (λ _. attempt f run stop) d) h
    ∙ ap (λ b. handled b stop (run d1)) quiet
    ∙ handled_quiet stop (run d1)

-- The services' starts, each where the one before left.
abbrev pub all_starts : Site → Started → Desk → Desk
all_starts s a d = (run_app s a (run_monitor s (run_webui_nginx s a (run_nginx s a d).1).1).1).1

-- Without `failed_with_stop` no failure of one service keeps the next from being started: the run does not
-- raise, and it leaves what the four starts leave, in this order: the proxy, the proxy of the web page,
-- the monitors, the application.
pub run-all_starts :
    (s : Site) (a : Started) (d : Desk)
    → a.failed_with_stop ≡ false
    → run s a d ≡ (some tt, all_starts s a (recorded s a d).1)
unfolding run
run-all_starts s a d quiet =
    let h = made_helper s in
    let stop_last = app_stop s h (deploy_mode.value DeployMode.compose) in
    let first = recorded s a in
    let second = first >> attempt a.failed_with_stop (run_nginx s a) (proxy_stop s nginx h) in
    let third =
      second >> attempt a.failed_with_stop (run_webui_nginx s a) (proxy_stop s webui_nginx h) in
    let fourth = third >> attempt a.failed_with_stop (run_monitor s) (monitor_stop s h) in
    then_attempt fourth (run_app s a) stop_last quiet (
      then_attempt third (run_monitor s) (monitor_stop s h) quiet (
        then_attempt second (run_webui_nginx s a) (proxy_stop s webui_nginx h) quiet
          (then_attempt first (run_nginx s a) (proxy_stop s nginx h) quiet (recorded-some s a d))))
