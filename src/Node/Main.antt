-- ===== src/Node/Main.antt =====
-- The program (crates/dldsr-node/src/main.rs): it sends one control message, or loads a
-- configuration and runs the daemon. The printing of the answer is left out.
pub mod Starts
use dl_dsr_rs.Base.{Option, none, some, Result, ok, err, ◌>>=◌}
use dl_dsr_rs.Core.Socket.{Text}
use dl_dsr_rs.Node.Config.{Cli, LoadError, Host, load}
use dl_dsr_rs.Node.Request.{Json}
use dl_dsr_rs.Node.Control.{ControlDatagram, send_request}
use dl_dsr_rs.Node.Startup.{Bind, Started, run}

-- What becomes of a call.
pub data Outcome : Type 0 where
  sent : ControlDatagram → Outcome
  started : Started → Outcome

pub data MainError : Type 0 where
  client_failed : (cause : Text) → MainError
  load_failed : LoadError → MainError
  run_failed : (cause : Text) → MainError

-- The `?` of `main`, which takes every error.
abbrev pub as_main_error : {E A : Type 0} → (E → MainError) → Result E A → Result MainError A
as_main_error f (ok a) = ok a
as_main_error f (err e) = err (f e)

-- `main`. The socket of the client may not be bound, or not send.
unfoldable pub main :
    Host → Json → Bind → (ControlDatagram → Result Text (Unit {0})) → Cli → Result MainError Outcome
main host json bind send_to cli = elim cli.command [
  | some command ↦ do
    _ ← as_main_error client_failed (send_to (send_request json command))
    ok (sent (send_request json command))
  | none ↦ do
    config ← as_main_error load_failed (load host cli)
    s ← as_main_error run_failed (run bind config)
    ok (started s)
]
