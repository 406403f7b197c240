-- ===== src/Node/Startup.antt =====
-- What `run_with_channels` sets up before its loop (crates/dldsr-node/src/daemon.rs): the sockets
-- and the sender of the demo. Whether a socket is bound is an argument.
use dl_dsr_rs.Base.{ℕ, Bool, true, false, Option, none, some, Result, ok, ◌>>=◌, ◌>>◌}
use dl_dsr_rs.Core.Socket.{SocketAddr, Text}
use dl_dsr_rs.Core.Topology.{NodeConfig, DemoSendConfig}
use dl_dsr_rs.Node.State.{ProtocolCommand, discover_and_send, ProtocolState, new}

-- The task that sends one command after a delay.
pub record DemoTask : Type 0 where
  pub delay_ms : ℕ
  pub command : ProtocolCommand

-- Where the loop takes its commands from.
pub data Commands : Type 0 where
  no_commands : Commands
  external : Commands
  demo : DemoTask → Commands

pub record Started : Type 0 where
  pub state : ProtocolState
  pub commands : Commands
  pub has_control_socket : Bool

-- `UdpSocket::bind`
abbrev pub Bind : Type 0
Bind = SocketAddr → Result Text (Unit {0})

-- `if let Some(control_bind_addr) = ...`
abbrev pub bind_control : Bind → Option SocketAddr → Result Text Bool
bind_control bind none = ok false
bind_control bind (some control_bind_addr) = bind control_bind_addr >> ok true

-- `if let Some(demo) = ...`: a channel that is attached already is kept.
abbrev pub attach_demo : Option DemoSendConfig → Bool → Commands
attach_demo none false = no_commands
attach_demo none true = external
attach_demo (some d) true = external
attach_demo (some d) false =
    demo
      (record { delay_ms = d.start_after_ms; command = discover_and_send d.dst_node_id d.payload })

-- `Daemon::run_with_channels` up to its loop, with or without a channel of commands.
unfoldable pub run_with_channels : Bind → NodeConfig → Bool → Result Text Started
run_with_channels bind config has_commands = do
  _ ← bind config.bind_addr
  has_control_socket ← bind_control bind config.control_bind_addr
  ok (record {
    state = new config;
    commands = attach_demo config.demo_send has_commands;
    has_control_socket = has_control_socket;
  })

-- `Daemon::run`
unfoldable pub run : Bind → NodeConfig → Result Text Started
run bind config = run_with_channels bind config false
