-- ===== src/Node/Control.antt =====
-- Control messages: what the `send` command sends (crates/dldsr-node/src/main.rs) and how a daemon
-- reads and answers it (crates/dldsr-node/src/daemon.rs). The JSON is a parameter.
use dl_dsr_rs.Base.{
  ℕ, zero, suc, ◌≤◌, ◌<◌, ◌^◌, ◌≡◌, refl, List, [], ◌∷◌, ◌++◌, Bool, true, false, Option, none,
  some, Result, ok, err, take, length, arith, Result-cases, inl, inr, ap,
}
use dl_dsr_rs.Core.Socket.{SocketAddr, Text, bytes}
use dl_dsr_rs.Node.State.{Clock, discover_and_send, ProtocolActions, no_actions, ProtocolState}
use dl_dsr_rs.Node.Handle.{handle_command}
use dl_dsr_rs.Node.Daemon.{ControlSendRequest, control, handle_control_request, handle_input}
use dl_dsr_rs.Node.Config.{Command, send_payload}
use dl_dsr_rs.Node.Request.{
  Json, request_json, deserialize_request, deserialize_request-request_json,
}
use dl_dsr_rs.Core.Packet.{Codec}

-- A datagram of the control socket, and where it goes.
pub record ControlDatagram : Type 0 where
  pub content : List ℕ
  pub to : SocketAddr

-- The size of `control_buf`. What does not fit is cut off.
abbrev pub control_buf : ℕ
control_buf = 4096

abbrev pub accepted_reply : Text
accepted_reply = bytes "{\"status\":\"accepted\"}"

abbrev pub error_reply : Text → Text
error_reply reason = bytes "{\"status\":\"error\",\"reason\":\"" ++ (reason ++ bytes "\"}")

-- `let _ = socket.send_to(...)`, where there is a socket.
abbrev pub reply_to : Bool → Text → SocketAddr → List ControlDatagram
reply_to true content sender = record { content = content; to = sender } ∷ []
reply_to false content sender = []

-- What a control message does: its replies, and the state and the actions.
pub record Handled : Type 0 where
  pub replies : List ControlDatagram
  pub state : ProtocolState
  pub actions : ProtocolActions

module _ (json : Json) where
  -- `Command::Send` in `main`
  unfoldable pub send_request : Command → ControlDatagram
  send_request (send_payload control_addr dst payload) = record {
    content = json.to_string (request_json dst payload);
    to = control_addr;
  }

  -- `serde_json::from_slice::<ControlSendRequest>(bytes)`. Of the faults of a content that has
  -- several, the one that is told may be another.
  unfoldable pub read_request : List ℕ → Result Text ControlSendRequest
  read_request content = elim (json.from_slice content) [
    | err cause ↦ err cause
    | ok document ↦ elim (deserialize_request document) [
      | ok request ↦ ok request
      | err fault ↦ err (json.describe fault)
    ]
  ]

  -- `Daemon::handle_control_message`
  unfoldable pub handle_control_message :
      ProtocolState → List ℕ → SocketAddr → Bool → Clock → Handled
  handle_control_message s content sender has_socket clock = elim (read_request content) [
    | ok request ↦
        let (t, actions) = handle_command s (discover_and_send request.dst request.payload) clock in
        record { replies = reply_to has_socket accepted_reply sender; state = t; actions = actions }
    | err cause ↦ record {
      replies = reply_to has_socket (error_reply cause) sender;
      state = s;
      actions = no_actions;
    }
  ]

  -- `recv_control` and its branch of `select!`, where there is a control socket.
  unfoldable pub receive_control : ProtocolState → List ℕ → SocketAddr → Clock → Handled
  receive_control s datagram sender clock =
      handle_control_message s (take control_buf datagram) sender true clock

  -- What the JSON makes of a control message, as the input of a round.
  abbrev pub parsed : List ℕ → Option ControlSendRequest
  parsed content = elim (read_request content) [ ok request ↦ some request | err _ ↦ none ]

  -- A control message is the round of the daemon on what the JSON makes of it.
  pub handle_control_message-handle_input :
      (c : Codec) (s : ProtocolState) (content : List ℕ) (sender : SocketAddr) (has_socket : Bool)
      (clock : Clock)
      → let h = handle_control_message s content sender has_socket clock in
        handle_input c s (control (parsed content)) clock ≡ (h.state, h.actions)
  unfolding handle_control_message handle_input handle_control_request
  handle_control_message-handle_input c s content sender has_socket clock =
      elim (Result-cases (read_request content)) [
        | inl (request, read) ↦ ground (arith, read)
        | inr (cause, refused) ↦ ground (arith, refused)
      ]

  take_all : (n : ℕ) (xs : List ℕ) → length xs ≤ n → take n xs ≡ xs
  take_all zero [] h = refl
  take_all zero (x ∷ xs) h = absurd (omega arith)
  take_all (suc n) [] h = refl
  take_all (suc n) (x ∷ xs) h = ap (λ ys. x ∷ ys) (take_all n xs (omega arith))

  -- What the `send` command sends is read back.
  read_request-send_request :
      (control_addr : SocketAddr) (dst : ℕ) (payload : Text)
      → dst < 2 ^ 32
      → read_request (send_request (send_payload control_addr dst payload)).content
        ≡ ok (record { dst = dst; payload = payload })
  unfolding send_request read_request
  read_request-send_request control_addr dst payload small =
      let (straight, swapped) = deserialize_request-request_json dst payload small in
      elim (json.from_slice-to_string (bytes "dst") (bytes "payload") payload dst (λ e. cc)
        (omega arith)) [
          | inl read ↦ rw (read, read_request, straight) refl
          | inr read ↦ rw (read, read_request, swapped) refl
        ]

  -- Let the destination fit in 32 bits and the request in the buffer of 4096 bytes. Then the
  -- request goes to the address that was given, and a daemon with a control socket answers once,
  -- to the sender, with the text {"status":"accepted"}, and with the state and the actions of the
  -- command to discover the destination and send the payload.
  pub receive_control-send_request :
      (s : ProtocolState) (control_addr sender : SocketAddr) (dst : ℕ) (payload : Text)
      (clock : Clock)
      → dst < 2 ^ 32
      → length (send_request (send_payload control_addr dst payload)).content ≤ 4096
      → let request = send_request (send_payload control_addr dst payload) in
        (request.to ≡ control_addr)
        × ((receive_control s request.content sender clock).replies
            ≡ record { content = bytes "{\"status\":\"accepted\"}"; to = sender } ∷ [])
        × ((
          (receive_control s request.content sender clock).state,
          (receive_control s request.content sender clock).actions,
        )
            ≡ handle_command s (discover_and_send dst payload) clock)
  unfolding send_request receive_control handle_control_message
  receive_control-send_request s control_addr sender dst payload clock small fits =
      let whole = take_all control_buf (json.to_string (request_json dst payload)) fits in
      let read = read_request-send_request control_addr dst payload small in
      (
        refl,
        rw (whole, read, handle_control_message) refl,
        rw (whole, read, handle_control_message) refl,
      )
