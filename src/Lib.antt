-- ===== src/Lib.antt =====
-- The verification library of vrc-agent: a model of the parts of vrc_ardy_agent that decide what the
-- character does, who may write to its devices, and what becomes of input, with the theorems about them.
--
-- How the parts interact. Microphone frames become utterances (energy detection); an utterance begins a
-- dialogue turn, whose token fences the answer of the brain; the answer is validated into a bundle of
-- actions, which the character supervisor applies only through a current turn. The supervisor takes a
-- lease of a control resource for each action, authorises it at the output authority, runs the action on a
-- thread, and fences and neutralises the resource before it cancels the thread. On the device's side the
-- gateway lets a message through only by session, lease and sequence, and its watchdog revokes a lease
-- whose messages have run out. Screenshots and audio come back through the input transport. Between the
-- two machines all of it travels as messages of the stream protocol: the bridge client reads frames, hands
-- commands to the output controller in front of the gateway, and answers with acknowledgements; the other
-- machine's output transport waits for those and for the completions of speech, and its input transport
-- orders the audio and matches pictures with the requests that wait for them.
--
--   Contracts.antt    vrc_ardy_agent/action_contracts.py: the shared types; Contracts/Validation.antt is
--                     validate_action_bundle, Contracts/Plans.antt what it lets through
--   Json.antt         the JSON values of plans and messages
--   Protocol.antt     vrc_ardy_agent/stream_protocol.py: the messages in Protocol/Messages.antt, the checks
--                     of values in Protocol/Checks.antt, encode_message in Protocol/Encode.antt with the
--                     size of its text in Protocol/Size.antt, decode_message in Protocol/Decode.antt, and
--                     base64 in Protocol/Base64.antt
--   Resources.antt    vrc_ardy_agent/control_resources.py: acquire, invalidate, current, is_current
--   Supervisor.antt   vrc_ardy_agent/character_supervisor.py: apply_bundle, halt_all, mark_running and
--                     finish_handle, with the private methods in Supervisor/Output.antt, the state and
--                     the outside in Supervisor/State.antt, the queries in Supervisor/Query.antt
--   Turns.antt        vrc_ardy_agent/dialogue_turns.py: one function per method
--   Gateway.antt      vrc_ardy_agent/device_gateway.py: one function per method; the state and the sink in
--                     Gateway/State.antt
--   WindowsOutput.antt  vrc_ardy_agent/windows_output_controller.py: handle
--   WindowsBridge.antt  vrc_ardy_agent/windows_bridge_client.py: _run_connection, its loop and its finally,
--                     over what its input transport gives or raises; the reconnecting _run is in
--                     WindowsBridge/Reconnecting.antt
--   Vad.antt          vrc_ardy_agent/energy_vad.py: push and reset; the constructor in Vad/Settings.antt,
--                     the root mean square in Vad/Rms.antt
--   Input.antt        vrc_ardy_agent/windows_input_transport.py: the locked regions of its methods, and in
--                     Input/Threads.antt the threads that run them in any interleaving
--   MacInput.antt     vrc_ardy_agent/mac_input_transport.py: the locked regions of its methods, and in
--                     MacInput/Threads.antt the threads that run them in any interleaving
--   MacOutput.antt    vrc_ardy_agent/mac_output_transport.py: the locked regions of its methods; the steps of
--                     its threads are in MacOutput/Advance.antt, the calls in MacOutput/Threads.antt
--   Waiting.antt      the tables of pending objects in both transports of the Mac, _PendingScreenshot,
--                     _PendingAck and _PendingCompletion
--   Idle.antt         vrc_ardy_agent/idle_behavior_policy.py: tick and interrupt
--   Cue.antt          vrc_ardy_agent/motion_cue.py: one function per method
--   Prelude.antt      shared helpers: Boolean tests, lists, dicts, integers, methods that raise (Result,
--                     Method, chains of checks), postconditions of such methods (Ends), str.strip
--
-- How the code is modelled. A method under one lock is one function from the state to a result and the new
-- state; a raise keeps what was written before it. Methods that call out between locked regions are
-- threads of several steps. Collaborators outside a component (the output authority, the device sink, the
-- factories of ids, senders, clocks) are arguments, arbitrary functions or arbitrary answers. Clock
-- readings and durations are whole milliseconds; error texts are data with the texts of exceptions in
-- them; only exceptions that the code catches by `except Exception`, or lets through, are modelled.
-- Threads and their joins stand for arbitrary orders of calls. Integers of the messages are signed and
-- unbounded, as in Python.
--
-- The text of a message is not modelled: encode_message gives the object that json.dumps writes, with the
-- size of its text, and decode_message starts with what json.loads reads, numbers with a point as whole
-- thousandths. A message that json.dumps or json.loads refuses is outside the model except for the refusal
-- of what is not JSON. The records Input.AudioChunk and its neighbours are the input transport's own view
-- of the messages, with its error texts still as data.
--
-- Fuel. `digits` counts decimal digits with the number itself as fuel, which a tenth at each step never
-- uses up. `isqrt_bits` finds a root bit by bit from the highest; sixteen pairs of bits hold every mean of
-- squares of 16-bit samples, which is at most 2 ^ 30. Every other function is structural
-- recursion.
--
-- Not modelled: waiting on conditions, snapshots that only copy the state, the floating-point geometry of
-- poses, the adapters of models, sockets and devices, and the components that have no file here.
pub mod Prelude
pub mod Json
pub mod Waiting
pub mod Contracts
pub mod Protocol
pub mod Resources
pub mod Supervisor
pub mod Turns
pub mod Gateway
pub mod WindowsOutput
pub mod WindowsBridge
pub mod Vad
pub mod Input
pub mod MacInput
pub mod MacOutput
pub mod Idle
pub mod Cue
