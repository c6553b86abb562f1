-- ===== src/Examples.antt =====
-- Runs of the program's parts on small inputs.
mod Websocket
mod Http
mod Manager
mod Connector
mod TestService
mod Chat
mod Handover
mod Multipart
mod Wrapper
mod Start
