-- ===== src/Router.antt =====
-- src/router: the dispatcher.
pub mod Channel
pub mod Outcome
pub mod Target
pub mod Dispatcher
