-- ===== src/Proxy/Tests.antt =====
-- A page of the portal asked for without a session.
use choschmous_v.Base.{◌≡◌, none, nat_eq, codes, text_eq}
use choschmous_v.Proxy.{next, proxy, target}
use choschmous_v.Proxy.Laws.{IsReply, proxy_settles}

proxy_settles_example :
    IsReply (codes "/events/3") none (proxy (codes "/events/3") none)
    × (proxy (target (codes "/events/3") (proxy (codes "/events/3") none)) none ≡ next)
proxy_settles_example = proxy_settles (codes "/events/3") none
