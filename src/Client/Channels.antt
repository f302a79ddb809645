-- ===== src/Client/Channels.antt =====
-- The goroutines of a client (fins/client_udp.go, fins/client_tcp.go) and the channels between
-- them: callers in `sendCommand` and the listener in `listenLoop`, in every order of their steps. `ReadBytes`
-- and `WriteFloat32` take no lock, so that there may be several callers at a time.
pub mod Matching
pub mod Blocking
use omron_hostlink_fins.Client.{store_channel}
use omron_hostlink_fins.Common.{List, Option, [], if◌then◌else◌, none, some, ℕ, ◌+◌, ◌==◌, ◌∷◌}
use omron_hostlink_fins.Common.{◌≡◌}
use omron_hostlink_fins.Common.Words.{to_byte}
use omron_hostlink_fins.Driver.Frames.{Response}

-- A caller between commands, or in the `select` for the answer to command `id` on channel `ch`.
pub data Caller : Type 0 where
  idle : Caller
  waiting : ℕ → ℕ → Caller

-- The listener in `Read`, or in a send on the channel that it found in the cell of the response's id
-- (`none` for the nil channel of a cell that no command has used), or after its loop.
pub data Listener : Type 0 where
  reading : Listener
  sending : Option ℕ → Response → Listener
  ended : Listener

-- Channels are numbered in the order in which `incrementSid` makes them.
pub record System : Type 0 where
  pub sid : ℕ
  pub cells : ℕ → Option ℕ
  pub made : ℕ
  pub callers : ℕ → Caller
  pub listener : Listener

abbrev pub new_system : System
new_system = record {
  sid = 0;
  cells = λ i. none;
  made = 0;
  callers = λ k. idle;
  listener = reading;
}

abbrev pub set_caller : (ℕ → Caller) → ℕ → Caller → ℕ → Caller
set_caller callers k caller j = if j == k then caller else callers j

-- `incrementSid` in caller `k`, and what its `sendCommand` goes on with.
abbrev pub next_command : System → ℕ → Caller → System
next_command s k caller = record s {
  sid = to_byte (s.sid + 1);
  cells = store_channel s.cells (to_byte (s.sid + 1)) s.made;
  made = s.made + 1;
  callers = set_caller s.callers k caller;
}

-- `delivered k id r`: caller `k`, which waits for the answer to command `id`, gets `r`.
pub data Event : Type 0 where
  command_sent : Event
  command_lost : Event
  timed_out : Event
  arrived : Response → Event
  delivered : ℕ → ℕ → Response → Event
  closed : Event

pub data Step : System → Event → System → Type 0 where
  -- A command is written to the connection, or the write fails. The write and the beginning of the
  -- wait for the answer are one step.
  send :
      (s : System) (k : ℕ)
      → s.callers k ≡ idle
      → Step s command_sent (next_command s k (waiting (to_byte (s.sid + 1)) s.made))
  lose : (s : System) (k : ℕ) → s.callers k ≡ idle → Step s command_lost (next_command s k idle)
  -- The time limit of the `select`.
  give_up :
      (s : System) (k id ch : ℕ)
      → s.callers k ≡ waiting id ch
      → Step s timed_out (record s { callers = set_caller s.callers k idle })
  -- The listener decodes a response and takes the channel of its id.
  receive :
      (s : System) (r : Response)
      → s.listener ≡ reading
      → Step s (arrived r) (record s { listener = sending (s.cells r.header.service_id) r })
  -- A caller and the listener meet on one channel.
  meet :
      (s : System) (k id ch : ℕ) (r : Response)
      → s.callers k ≡ waiting id ch
      → s.listener ≡ sending (some ch) r
      → Step s
          (delivered k id r)
          (record s { callers = set_caller s.callers k idle; listener = reading })
  -- The read fails on the connection that `Close` has closed.
  stop : (s : System) → s.listener ≡ reading → Step s closed (record s { listener = ended })

-- The events of a run, the latest first.
pub data Trace (s : System) : List Event → System → Type 0 where
  here : Trace s [] s
  then_ :
      {e : Event} {events : List Event} {t u : System}
      → Trace s events t
      → Step t e u
      → Trace s (e ∷ events) u
