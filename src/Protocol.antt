-- ===== src/Protocol.antt =====
-- firmware/beer_terminal/api_protocol.cpp: the request bodies, the checks on what comes back, and the
-- hosts that a redirect may lead to. JSON is the ArduinoJson library's: its calls are a parameter.
pub mod Json
pub mod Requests
pub mod Responses
pub mod Redirect
