-- ===== src/Entry.antt =====
-- cmd/proxy: what main.go, net.go and fasthttp.go make of a configuration.
pub mod Startup
pub mod Started
pub mod NetHttp
pub mod Guards
pub mod FastHttp
pub mod FastServed
pub mod DummyServer
pub mod FirstRequest
pub mod Lifetime
pub mod Site
pub mod Main
pub mod Routes
pub mod FastRoutes
pub mod Settings
pub mod Shutdown
pub mod FastSite
