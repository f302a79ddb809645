-- ===== src/Client/Channels/Matching.antt =====
-- The channels of a client: a response reaches the command of its id.
use mathlib.Core.Path.{subst}
use omron_hostlink_fins.Client.{store_channel}
use omron_hostlink_fins.Client.Channels.{Caller, Event, Listener, Step, System, Trace, arrived}
use omron_hostlink_fins.Client.Channels.{delivered, ended, give_up, here, idle, lose, meet}
use omron_hostlink_fins.Client.Channels.{new_system, next_command, reading, receive, send}
use omron_hostlink_fins.Client.Channels.{sending, set_caller, stop, then_, waiting}
use omron_hostlink_fins.Common.{Bool-cases, List, Option, ap, arith, inl, inr, none, refl}
use omron_hostlink_fins.Common.{some, true, ℕ, ◌+◌, ◌<◌, ◌==◌, ◌^◌, ◌≡◌, ◌≤◌}
use omron_hostlink_fins.Common.Words.{to_byte}
use omron_hostlink_fins.Driver.Frames.{Response}

-- What holds of a caller, and of the listener.
abbrev pub CallerMatches : System → Caller → Type 0
CallerMatches s idle = Unit
CallerMatches s (waiting id ch) = (id ≡ to_byte (ch + 1)) × (ch < s.made)

abbrev ListenerMatches : System → Listener → Type 0
ListenerMatches s reading = Unit
ListenerMatches s (sending none r) = Unit
ListenerMatches s (sending (some ch) r) = (r.header.service_id ≡ to_byte (ch + 1)) × (ch < s.made)
ListenerMatches s ended = Unit

-- The last channel made is that of the last id, every cell holds a channel that was made for its id,
-- and the last 256 channels are all in their cells.
pub record Matches (s : System) : Type 0 where
  pub counted : s.sid ≡ to_byte s.made
  pub owned : (i ch : ℕ) → s.cells i ≡ some ch → (i ≡ to_byte (ch + 1)) × (ch < s.made)
  pub recent : (ch : ℕ) → ch < s.made → s.made ≤ ch + 2 ^ 8 → s.cells (to_byte (ch + 1)) ≡ some ch
  pub callers_match : (k : ℕ) → CallerMatches s (s.callers k)
  pub listener_matches : ListenerMatches s s.listener

pub new_system-Matches : Matches new_system
new_system-Matches = record {
  counted = refl;
  owned = λ i ch e. cc;
  recent = λ ch h _. absurd (omega arith);
  callers_match = λ k. tt;
  listener_matches = tt;
}

module _ (s : System) (m : Matches s) where
  store_channel-owned :
      (i ch : ℕ)
      → store_channel s.cells (to_byte (s.sid + 1)) s.made i ≡ some ch
      → (i ≡ to_byte (ch + 1)) × (ch < s.made + 1)
  store_channel-owned i ch e = ground (arith, m.counted, m.owned i ch)

  store_channel-recent :
      (ch : ℕ)
      → ch < s.made + 1
      → s.made + 1 ≤ ch + 2 ^ 8
      → store_channel s.cells (to_byte (s.sid + 1)) s.made (to_byte (ch + 1)) ≡ some ch
  store_channel-recent ch lo hi = ground (arith, m.counted, m.recent ch)

  caller_later :
      (k : ℕ) (c caller : Caller) → CallerMatches s c → CallerMatches (next_command s k caller) c
  caller_later k idle caller h = tt
  caller_later k (waiting id ch) caller h = (h.0, omega (arith, h.1))

  listener_later :
      (k : ℕ) (caller : Caller) (l : Listener)
      → ListenerMatches s l
      → ListenerMatches (next_command s k caller) l
  listener_later k caller reading h = tt
  listener_later k caller (sending none r) h = tt
  listener_later k caller (sending (some ch) r) h = (h.0, omega (arith, h.1))
  listener_later k caller ended h = tt

set_caller-match :
    (s : System) (callers : ℕ → Caller) (k : ℕ) (caller : Caller)
    → CallerMatches s caller
    → ((j : ℕ) → CallerMatches s (callers j))
    → (j : ℕ) → CallerMatches s (set_caller callers k caller j)
set_caller-match s callers k caller own others j = elim (Bool-cases (j == k)) [
  | inl same ↦ rw same own
  | inr other ↦ rw other (others j)
]

next_command-Matches :
    (s : System) (k : ℕ) (caller : Caller)
    → Matches s
    → CallerMatches (next_command s k caller) caller
    → Matches (next_command s k caller)
next_command-Matches s k caller m own = record {
  counted = omega (arith, m.counted);
  owned = store_channel-owned s m;
  recent = store_channel-recent s m;
  callers_match =
      set_caller-match (next_command s k caller) s.callers k caller own
        (λ j. caller_later s m k (s.callers j) caller (m.callers_match j));
  listener_matches = listener_later s m k caller s.listener m.listener_matches;
}

received-Matches :
    (s : System) (r : Response) (cell : Option ℕ)
    → Matches s
    → s.cells r.header.service_id ≡ cell
    → ListenerMatches s (sending cell r)
received-Matches s r none m e = tt
received-Matches s r (some ch) m e = m.owned r.header.service_id ch e

pub Step-Matches : {s t : System} {e : Event} → Step s e t → Matches s → Matches t
Step-Matches (send s k free) m =
    next_command-Matches s k _ m (omega (arith, m.counted), omega arith)
Step-Matches (lose s k free) m = next_command-Matches s k idle m tt
Step-Matches (give_up s k id ch w) m = record {
  counted = m.counted;
  owned = m.owned;
  recent = m.recent;
  callers_match = set_caller-match s s.callers k idle tt m.callers_match;
  listener_matches = m.listener_matches;
}
Step-Matches (receive s r free) m = record {
  counted = m.counted;
  owned = m.owned;
  recent = m.recent;
  callers_match = m.callers_match;
  listener_matches = received-Matches s r (s.cells r.header.service_id) m refl;
}
Step-Matches (meet s k id ch r w l) m = record {
  counted = m.counted;
  owned = m.owned;
  recent = m.recent;
  callers_match = set_caller-match s s.callers k idle tt m.callers_match;
  listener_matches = tt;
}
Step-Matches (stop s free) m = record {
  counted = m.counted;
  owned = m.owned;
  recent = m.recent;
  callers_match = m.callers_match;
  listener_matches = tt;
}

pub Trace-Matches : {s t : System} {events : List Event} → Trace s events t → Matches s → Matches t
Trace-Matches here m = m
Trace-Matches (then_ before step) m = Step-Matches step (Trace-Matches before m)

delivery-Matches :
    {k id : ℕ} {r : Response} {s t : System}
    → Step s (delivered k id r) t
    → Matches s
    → (ch : ℕ) × (s.callers k ≡ waiting id ch) × (r.header.service_id ≡ id)
delivery-Matches (meet s k id ch r w l) m =
    let of_caller = subst (CallerMatches s) w (m.callers_match k) in
    let of_listener = subst (ListenerMatches s) l m.listener_matches in
    (ch, w, omega (arith, of_caller.0, of_listener.0))

-- In whatever order the callers, the listener, the network and the time limits take their steps from
-- a new client on, a response that reaches a caller carries the service id of the command that this
-- caller waits for.
pub delivered-service_id :
    (events : List Event) (s t : System) (k id : ℕ) (r : Response)
    → Trace new_system events s
    → Step s (delivered k id r) t
    → (ch : ℕ) × (s.callers k ≡ waiting id ch) × (r.header.service_id ≡ id)
delivered-service_id events s t k id r before step =
    delivery-Matches step (Trace-Matches before new_system-Matches)

-- While a caller waits on one of the last 256 channels and the listener reads, a response with the
-- caller's id can reach it, and both are then free again.
pub response_reaches :
    (events : List Event) (s : System) (k id ch : ℕ) (r : Response)
    → Trace new_system events s
    → s.callers k ≡ waiting id ch
    → s.made ≤ ch + 2 ^ 8
    → s.listener ≡ reading
    → r.header.service_id ≡ id
    → (t u : System) × Step s (arrived r) t
      × Step t (delivered k id r) u
      × (u.callers k ≡ idle)
      × (u.listener ≡ reading)
response_reaches events s k id ch r before w young free same =
    let m = Trace-Matches before new_system-Matches in
    let of_caller = subst (CallerMatches s) w (m.callers_match k) in
    let t = record s { listener = sending (s.cells r.header.service_id) r } in
    let own : s.cells r.header.service_id ≡ some ch =
      rw (same, of_caller.0) (m.recent ch of_caller.1 young) in
    let itself : (k == k) ≡ true = ground arith in
    (
      t,
      record t { callers = set_caller s.callers k idle; listener = reading },
      receive s r free,
      meet t k id ch r w (ap (λ (cell : Option ℕ). sending cell r) own),
      rw itself,
      refl,
    )
