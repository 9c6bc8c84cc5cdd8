-- ===== src/Gateway/Either.antt =====
-- What a push of backend/app/control_plane/router_gateway.py can leave the router with.
use modelops_control_plane.Base.{◌≡◌, ◌⊎◌, inl, refl, arith}
use modelops_control_plane.Router.{RouterConfig, RouterSettings, put_config}
use modelops_control_plane.Gateway.{Delivery, lost, reply_lost, delivered, push_traffic_allocation}

-- A put leaves the router with what it had or with what was put.
pub put_config-either :
    (s : RouterSettings) (config current : RouterConfig)
    → ((put_config s config current).1 ≡ current) ⊎ ((put_config s config current).1 ≡ config)
unfolding put_config
put_config-either s config current = ground arith

-- A push leaves the router with what it had or with what was pushed.
pub push-either :
    (s : RouterSettings) (net : Delivery) (config current : RouterConfig)
    → ((push_traffic_allocation s net config current).1 ≡ current)
      ⊎ ((push_traffic_allocation s net config current).1 ≡ config)
push-either s lost config current = inl refl
push-either s reply_lost config current = put_config-either s config current
push-either s delivered config current = put_config-either s config current
