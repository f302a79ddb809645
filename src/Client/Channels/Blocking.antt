-- ===== src/Client/Channels/Blocking.antt =====
-- The channels of a client: what a response that nobody waits for does to the listener.
use mathlib.Core.Path.{subst}
use omron_hostlink_fins.Client.Channels.{Caller, Event, Step, System, Trace, arrived}
use omron_hostlink_fins.Client.Channels.{delivered, give_up, here, idle, lose, meet}
use omron_hostlink_fins.Client.Channels.{new_system, receive, send, sending, set_caller, stop}
use omron_hostlink_fins.Client.Channels.{then_, waiting}
use omron_hostlink_fins.Client.Channels.Matching.{CallerMatches, Matches, Trace-Matches}
use omron_hostlink_fins.Client.Channels.Matching.{new_system-Matches}
use omron_hostlink_fins.Common.{All, Bool-cases, List, Option, ap, arith, inl, inr, refl, some}
use omron_hostlink_fins.Common.{ℕ, ◌+◌, ◌<◌, ◌==◌, ◌≡◌, ◌≢◌}
use omron_hostlink_fins.Common.Words.{to_byte}
use omron_hostlink_fins.Driver.Frames.{Response}

-- The listener is in a send of `r` on the channel of `cell`: there is no such channel, or it is one
-- made before, on which no caller waits.
pub record IsBlocked (s : System) (cell : Option ℕ) (r : Response) : Type 0 where
  pub holds : s.listener ≡ sending cell r
  pub old : (k : ℕ) → cell ≡ some k → k < s.made
  pub unasked : (j id k : ℕ) → s.callers j ≡ waiting id k → cell ≢ some k

-- An event other than a delivery.
abbrev pub IsNoDelivery : Event → Type 0
IsNoDelivery (delivered k id r) = ⊥
IsNoDelivery _ = Unit

abbrev channel_of : Caller → ℕ
channel_of idle = 0
channel_of (waiting id ch) = ch

-- A caller that is set to wait on another channel, or on none, does not wait on `k` either.
set_caller-unasked :
    (callers : ℕ → Caller) (i : ℕ) (caller : Caller) (cell : Option ℕ)
    → ((id k : ℕ) → caller ≡ waiting id k → cell ≢ some k)
    → ((j id k : ℕ) → callers j ≡ waiting id k → cell ≢ some k)
    → (j id k : ℕ) → set_caller callers i caller j ≡ waiting id k
    → cell ≢ some k
set_caller-unasked callers i caller cell own others j id k w = elim (Bool-cases (j == i)) [
  | inl same ↦ own id k (rw same at w)
  | inr other ↦ others j id k (rw other at w)
]

-- A blocked listener stays blocked in every step, and no step is a delivery.
Step-IsBlocked :
    {s t : System} {e : Event} {cell : Option ℕ} {r : Response}
    → Step s e t
    → IsBlocked s cell r
    → IsNoDelivery e × IsBlocked t cell r
Step-IsBlocked {cell} (send s i free) b = (
  tt,
  record {
    holds = b.holds;
    old = λ k e. omega (arith, b.old k e);
    unasked =
        set_caller-unasked s.callers i (waiting (to_byte (s.sid + 1)) s.made) cell
          (λ id k w e. let same = ap channel_of w in omega (arith, b.old k e)) b.unasked;
  },
)
Step-IsBlocked {cell} (lose s i free) b = (
  tt,
  record {
    holds = b.holds;
    old = λ k e. omega (arith, b.old k e);
    unasked = set_caller-unasked s.callers i idle cell (λ id k w e. cc) b.unasked;
  },
)
Step-IsBlocked {cell} (give_up s i id ch w) b = (
  tt,
  record {
    holds = b.holds;
    old = b.old;
    unasked = set_caller-unasked s.callers i idle cell (λ id' k w' e. cc) b.unasked;
  },
)
Step-IsBlocked (receive s r free) b = absurd (cc (b.holds, free))
Step-IsBlocked (meet s i id ch r w l) b = absurd (b.unasked i id ch w (cc (b.holds, l)))
Step-IsBlocked (stop s free) b = absurd (cc (b.holds, free))

Trace-IsBlocked :
    {s t : System} {events : List Event} {cell : Option ℕ} {r : Response}
    → Trace s events t
    → IsBlocked s cell r
    → All IsNoDelivery events × IsBlocked t cell r
Trace-IsBlocked here b = (tt, b)
Trace-IsBlocked (then_ before step) b =
    let (quiet, b') = Trace-IsBlocked before b in
    let (none_now, b'') = Step-IsBlocked step b' in ((none_now, quiet), b'')

unasked_arrival :
    {s t : System} {r : Response}
    → Step s (arrived r) t
    → Matches s
    → ((j ch : ℕ) → s.callers j ≢ waiting r.header.service_id ch)
    → IsBlocked t (s.cells r.header.service_id) r
unasked_arrival (receive s r free) m alone = record {
  holds = refl;
  old = λ k e. (m.owned r.header.service_id k e).1;
  unasked = λ j id k w e.
      let of_caller = subst (CallerMatches s) w (m.callers_match j) in
      let same : id ≡ r.header.service_id =
        omega (arith, of_caller.0, (m.owned r.header.service_id k e).0) in
      alone j k (rw same at w);
}

-- When a response arrives whose id no caller waits for, such as the late answer to a command that
-- was given up, the listener holds it for ever, and no response reaches any caller again, in
-- whatever order the steps are taken.
pub unasked_response_blocks :
    (before after : List Event) (s t u : System) (r : Response)
    → Trace new_system before s
    → ((j ch : ℕ) → s.callers j ≢ waiting r.header.service_id ch)
    → Step s (arrived r) t
    → Trace t after u
    → All IsNoDelivery after × (u.listener ≡ sending (s.cells r.header.service_id) r)
unasked_response_blocks before after s t u r first alone arrival rest =
    let blocked = unasked_arrival arrival (Trace-Matches first new_system-Matches) alone in
    let (quiet, b) = Trace-IsBlocked rest blocked in (quiet, b.holds)
