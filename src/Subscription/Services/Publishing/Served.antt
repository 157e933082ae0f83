-- ===== src/Subscription/Services/Publishing/Served.antt =====
-- Service_Publish of src/server/ua_services_subscription.c: which subscription a request serves, and
-- that the turn of every late one comes up.
use opcua_tsn_lo_i.Base.{Bool, not, ◌&&◌, ◌==◌, leb}
use opcua_tsn_lo_i.Subscription.{Subscription}
use opcua_tsn_lo_i.Subscription.Services.{Config, Session}

module _ {V : Type 0} where
  abbrev is_full : Config → Session V → Bool
  is_full config ses =
      not (config.max_publish_req_per_session == 0)
      && leb config.max_publish_req_per_session ses.num_publish_req
