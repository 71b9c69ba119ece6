-- ===== src/Relay/Terminal.antt =====
-- The bodies of terminal frames: `validateTerminalFrame` of
-- roomsd/src/federation/relay-protocol.ts, a validator for each kind.
use wardroom.Base.{String, Option, some, List, [], ◌∷◌, ◌++◌}
use wardroom.Json.{Fields, get}
use wardroom.Relay.{
  TerminalScope, Body, RelayWireFrame, terminal_open, terminal_open_ack, terminal_output,
  terminal_gap, terminal_input, terminal_input_ack, terminal_resize, terminal_resize_ack,
  terminal_detach, terminal_close,
}
use wardroom.Relay.Fields.{
  ◌>>=◌, bounded_str, authority_field, bounded_base64, counter_field, one_of, shown_as,
  whole_between, whole_from,
}
use wardroom.Relay.Bodies.{relay_max_terminal_bytes, frame_of}

abbrev pub outcomes : List String
outcomes = "written" ∷ "duplicate" ∷ "uncertain" ∷ []

-- The fields that say which runtime a terminal frame is about.
abbrev pub scope_keys : List String
scope_keys = "homeAuthorityId" ∷ "sessionId" ∷ "runtimeId" ∷ "generation" ∷ []

unfoldable pub scope_field : Fields → Option TerminalScope
scope_field fs = do
  home ← authority_field (get "homeAuthorityId" fs)
  session ← bounded_str 256 (get "sessionId" fs)
  runtime ← bounded_str 256 (get "runtimeId" fs)
  generation ← whole_from 1 (get "generation" fs)
  some (record {
    home_authority_id = home;
    session_id = session;
    runtime_id = runtime;
    generation = generation;
  })

abbrev pub stream_field : Fields → Option String
stream_field fs = bounded_str 128 (get "streamId" fs)

abbrev pub bytes_field : Fields → Option String
bytes_field fs = bounded_base64 relay_max_terminal_bytes (get "bytes" fs)

unfoldable pub validate_terminal_open : Fields → Option Body
validate_terminal_open fs = do
  stream ← stream_field fs
  home ← authority_field (get "homeAuthorityId" fs)
  session ← bounded_str 256 (get "sessionId" fs)
  cursor ← counter_field (get "outputCursor" fs)
  capability ← bounded_base64 8192 (get "capability" fs)
  mode ← one_of ("observe" ∷ "controller" ∷ []) (get "mode" fs)
  some (terminal_open stream home session capability mode cursor)

unfoldable pub validate_terminal_open_ack : Fields → Option Body
validate_terminal_open_ack fs = do
  stream ← stream_field fs
  scope ← scope_field fs
  cursor ← counter_field (get "outputCursor" fs)
  some (terminal_open_ack stream scope cursor)

unfoldable pub validate_terminal_output : Fields → Option Body
validate_terminal_output fs = do
  stream ← stream_field fs
  scope ← scope_field fs
  cursor ← counter_field (get "outputCursor" fs)
  bytes ← bytes_field fs
  some (terminal_output stream scope cursor bytes)

unfoldable pub validate_terminal_gap : Fields → Option Body
validate_terminal_gap fs = do
  stream ← stream_field fs
  scope ← scope_field fs
  replay_from ← counter_field (get "replayFrom" fs)
  head ← counter_field (get "head" fs)
  some (terminal_gap stream scope replay_from head)

unfoldable pub validate_terminal_input : Fields → Option Body
validate_terminal_input fs = do
  stream ← stream_field fs
  scope ← scope_field fs
  capability ← bounded_str 256 (get "capabilityId" fs)
  input_seq ← counter_field (get "inputSeq" fs)
  bytes ← bytes_field fs
  some (terminal_input stream scope capability input_seq bytes)

unfoldable pub validate_terminal_input_ack : Fields → Option Body
validate_terminal_input_ack fs = do
  stream ← stream_field fs
  input_seq ← counter_field (get "inputSeq" fs)
  outcome ← shown_as outcomes (get "outcome" fs)
  some (terminal_input_ack stream input_seq outcome)

unfoldable pub validate_terminal_resize : Fields → Option Body
validate_terminal_resize fs = do
  stream ← stream_field fs
  scope ← scope_field fs
  capability ← bounded_str 256 (get "capabilityId" fs)
  columns ← whole_between 1 1000 (get "columns" fs)
  rows ← whole_between 1 1000 (get "rows" fs)
  some (terminal_resize stream scope capability columns rows)

unfoldable pub validate_terminal_close : Fields → Option Body
validate_terminal_close fs = do
  stream ← stream_field fs
  reason ← get "reason" fs
  some (terminal_close stream reason)

unfoldable pub validate_terminal_detach : Fields → Option Body
validate_terminal_detach fs = do
  stream ← stream_field fs
  scope ← scope_field fs
  some (terminal_detach stream scope)

-- The cases of `validateTerminalFrame`.
abbrev pub terminal_cases : Fields → List (String × Option RelayWireFrame)
terminal_cases fs =
    (
      "terminalOpen",
      frame_of fs
          ("streamId" ∷ "homeAuthorityId" ∷ "sessionId" ∷ "capability" ∷ "mode" ∷ "outputCursor"
            ∷ [])
          (validate_terminal_open fs),
    )
    ∷ (
      "terminalOpenAck",
      frame_of fs ("streamId" ∷ scope_keys ++ "outputCursor" ∷ []) (validate_terminal_open_ack fs),
    )
    ∷ (
      "terminalOutput",
      frame_of fs ("streamId" ∷ scope_keys ++ "outputCursor" ∷ "bytes" ∷ [])
          (validate_terminal_output fs),
    )
    ∷ (
      "terminalGap",
      frame_of fs ("streamId" ∷ scope_keys ++ "replayFrom" ∷ "head" ∷ [])
          (validate_terminal_gap fs),
    )
    ∷ (
      "terminalInput",
      frame_of fs ("streamId" ∷ scope_keys ++ "capabilityId" ∷ "inputSeq" ∷ "bytes" ∷ [])
          (validate_terminal_input fs),
    )
    ∷ (
      "terminalInputAck",
      frame_of fs ("streamId" ∷ "inputSeq" ∷ "outcome" ∷ []) (validate_terminal_input_ack fs),
    )
    ∷ (
      "terminalResize",
      frame_of fs ("streamId" ∷ scope_keys ++ "capabilityId" ∷ "columns" ∷ "rows" ∷ [])
          (validate_terminal_resize fs),
    )
    ∷ (
      "terminalResizeAck",
      frame_of fs ("streamId" ∷ []) (stream_field fs >>= λ s. some (terminal_resize_ack s)),
    )
    ∷ ("terminalDetach", frame_of fs ("streamId" ∷ scope_keys) (validate_terminal_detach fs))
    ∷ ("terminalClose", frame_of fs ("streamId" ∷ "reason" ∷ []) (validate_terminal_close fs))
    ∷ []
