-- ===== src/Gateway.antt =====
-- The control plane's client of the router: backend/app/control_plane/router_gateway.py. What the
-- network does with a request is an argument.
pub mod Either
use modelops_control_plane.Base.{ℕ, Option, none, some, leb, ◌==◌, if◌then◌else◌}
use modelops_control_plane.Router.{RouterConfig, RouterSettings, status_code, put_config}

-- One request: it is lost, it arrives and its reply is lost, or both arrive.
pub data Delivery : Type 0 where
  lost reply_lost delivered : Delivery

-- How a push returns, or which error it raises.
pub data PushOutcome : Type 0 where
  pushed stale_revision_error router_update_error : PushOutcome

-- The tests on the status code of the reply.
abbrev pub read_reply : ℕ → PushOutcome
read_reply code =
    if code == 409
    then stale_revision_error
    else if leb 400 code
    then router_update_error
    else pushed

abbrev pub push_traffic_allocation :
    RouterSettings → Delivery → RouterConfig → RouterConfig → PushOutcome × RouterConfig
push_traffic_allocation s lost body current = (router_update_error, current)
push_traffic_allocation s reply_lost body current =
    (router_update_error, (put_config s body current).1)
push_traffic_allocation s delivered body current =
    let (answer, next) = put_config s body current in (read_reply (status_code answer), next)

abbrev pub get_observed_config : Delivery → RouterConfig → Option RouterConfig
get_observed_config delivered current = some current
get_observed_config _ current = none
