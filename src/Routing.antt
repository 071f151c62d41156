-- ===== src/Routing.antt =====
-- internal/router/router.go and intelligent.go: the routing table, and the order in which a request
-- tries its routes. Table has the data, Reload's construction of it and the resolution of names;
-- Pool, Intelligent and Chain have the strategies of a combo and the walk over fallbacks; the other
-- modules prove what they are named for.
pub mod Table
pub mod Pool
pub mod Intelligent
pub mod Chain
pub mod Order
pub mod Distinct
pub mod Weights
pub mod Shares
pub mod Eligible
pub mod Engine
pub mod Dispatch
