-- ===== src/Net/Http.antt =====
-- arale/net/http: requests, their parser and responses. Files `Request`, `Context` and `Response`
-- model the headers of these names, `Server` the handlers of HttpServer.cc.
pub mod Text
pub mod Request
pub mod Context
pub mod Response
pub mod Server
mod Tests
