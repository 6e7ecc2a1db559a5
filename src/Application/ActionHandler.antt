-- ===== src/Application/ActionHandler.antt =====
-- src/application/executor.py and action_event_handler.py. `handle` calls itself only as its last
-- act, through `_enqueue_next_action`: one round, `handle_once`, returns the envelope of that call,
-- and `handle` goes on with it.
mod Settle
mod Branches
pub mod Quiet
mod Rounds
mod Picks
pub mod Chain
pub mod Guards
unfoldable pub use Settle.*
unfoldable pub use Branches.*
