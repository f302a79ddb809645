-- ===== src/Session/Memory.antt =====
-- The clients (fins/client_udp.go, fins/client_tcp.go), the network and the simulator
-- (fins/udp_server.go) together: a client's calls are served from the abstract memory.
use omron_hostlink_fins.Client.{Client, Reply, Transport, check_response, command_type_read}
use omron_hostlink_fins.Client.{command_type_write}
use omron_hostlink_fins.Client.Send.{exchange}
use omron_hostlink_fins.CommandCode.{command_code_value, memory_area_read, memory_area_write}
use omron_hostlink_fins.Common.{All, Bool, List, Result, [], ap, arith, contents, drop, err}
use omron_hostlink_fins.Common.{false, hang, if◌then◌else◌, length, ok, panic, refl, sym}
use omron_hostlink_fins.Common.{take-append, true, ℕ, ◌*◌, ◌++◌, ◌+◌, ◌==◌, ◌>>=◌, ◌^◌, ◌∙◌}
use omron_hostlink_fins.Common.{◌∷◌, ◌≡◌, ◌≤◌}
use omron_hostlink_fins.Driver.Commands.{memory_command, read_command, read_command_lem}
use omron_hostlink_fins.Driver.Commands.{write_command, write_command_lem}
use omron_hostlink_fins.Driver.Frames.{Response}
use omron_hostlink_fins.Driver.Frames.Headers.{as_decoded}
use omron_hostlink_fins.EndCode.{end_code_value, normal_completion}
use omron_hostlink_fins.Errors.{end_code_reported}
use omron_hostlink_fins.Header.{Header}
use omron_hostlink_fins.Server.{Loop, handler, server_buf_size}
use omron_hostlink_fins.Server.Memory.{Answer, Call, Memory, bytes_found, bytes_written}
use omron_hostlink_fins.Server.Memory.{call_refused, extent, reads, serve, serve_all, writes}
use omron_hostlink_fins.Server.Memory.Refinement.{handler-serve}
use omron_hostlink_fins.Server.Memory.Requests.{IsServable, longest_answer, mem_of, observe}
use omron_hostlink_fins.Server.Memory.Requests.{request_for, view}
use omron_hostlink_fins.Server.ReadWrite.{answer, memory_request}
use omron_hostlink_fins.Session.{IsReady, Link, after_send, heard, next_command_header}
use omron_hostlink_fins.Session.{send_command_lem}
use omron_hostlink_fins.UdpClient.{receive_size}

-- The command for a call, and its type.
abbrev pub command_for : Call → List ℕ
command_for (reads area address offset count) = read_command (mem_of area address offset) count
command_for (writes area address offset count new) =
    write_command (mem_of area address offset) count new

abbrev pub type_for : Call → ℕ
type_for (reads area address offset count) = command_type_read
type_for (writes area address offset count new) = command_type_write

-- What a client sees of the response to a call, or of the error with its end code.
abbrev pub client_sees : Result Response → Result Answer
client_sees (ok r) = ok (observe r)
client_sees (err (end_code_reported end)) = ok call_refused
client_sees (err e) = err e
client_sees panic = panic
client_sees hang = hang

-- Whether the request of a call fits the simulator's buffer, and its answer the client's.
abbrev pub IsShort : ℕ → Call → Type 0
IsShort overhead (reads area address offset count) = overhead + extent area count ≤ receive_size
IsShort overhead (writes area address offset count new) = 18 + length new ≤ server_buf_size

-- A series of calls, each sent when the one before it is answered.
module _ (t : Transport) (peer : Loop → List ℕ → Loop × Reply) where
  unfoldable pub call_all : Client × Loop → List Call → Result (List Answer)
  call_all s [] = ok []
  call_all s (call ∷ calls) =
      let (s', r) = exchange t peer s (command_for call) (type_for call) (λ resp. ok resp) in
      client_sees r >>= λ ans. call_all s' calls >>= λ rest. ok (ans ∷ rest)

observe-heard : (slack : ℕ → List ℕ) (r : Response) → observe (heard slack r) ≡ observe r
observe-heard slack r =
    let found = contents r.payload in
    ap
      (λ (xs : List ℕ).
        if r.end_code == end_code_value normal_completion
        then if r.command_code == command_code_value memory_area_read
          then bytes_found xs
          else bytes_written
        else call_refused)
      (take-append (length found) found (slack (length found)) refl)

client_sees-if :
    (b : Bool) (r : Response)
    → (r.end_code == end_code_value normal_completion) ≡ b
    → client_sees ((if b then ok r else err (end_code_reported r.end_code)) >>= λ resp. ok resp)
      ≡ ok (observe r)
client_sees-if true r e = refl
client_sees-if false r e =
    ap
      (λ (b : Bool). ok (
        if b
        then if r.command_code == command_code_value memory_area_read
          then bytes_found (contents r.payload)
          else bytes_written
        else call_refused))
      (sym e)

client_sees-check_response :
    (r : Response) → client_sees (check_response (ok r) >>= λ resp. ok resp) ≡ ok (observe r)
unfolding check_response
client_sees-check_response r =
    client_sees-if (r.end_code == end_code_value normal_completion) r refl

module _ {t : Transport} {peer : Loop → List ℕ → Loop × Reply} (link : Link t peer) where
  -- What one call comes to.
  record Called (c : Client) (l : Loop) (call : Call) : Type 0 where
    after : Loop
    result : Result Response
    sent :
        exchange t peer (c, l) (command_for call) (type_for call) (λ resp. ok resp)
        ≡ ((after_send c, after), result)
    answered_as : client_sees result ≡ ok (serve (view l.server) call).1
    kept_as : view after.server ≡ (serve (view l.server) call).0
    ready_again : IsReady (after_send c) after

  -- The command of a call is sent, and answered as the abstract memory answers the call.
  call_lem :
      (c : Client) (l : Loop) (b : ℕ) (call : Call) (parameters : List ℕ)
      → IsReady c l
      → command_for call ≡ 0x01 ∷ b ∷ parameters
      → 12 + length parameters ≤ server_buf_size
      → link.overhead + longest_answer call ≤ receive_size
      → ((h : Header) (slack : List ℕ)
          → request_for h slack call ≡ record {
            header = h;
            command_code = 0x01 * 2 ^ 8 + b;
            payload = record { cells = parameters ++ slack; len = length parameters };
          })
      → IsServable call
      → Called c l call
  unfolding exchange
  call_lem c l b call parameters ready e0 small room_for asked servable =
      let h = as_decoded (next_command_header c) in
      let tail = drop (12 + length parameters) l.buf in
      let one = handler-serve l.server h tail ready.sized call servable in
      let handled = ap (handler l.server) (sym (asked h tail)) ∙ one.handled in
      let (l', e, same, room) =
        send_command_lem link c l 0x01 b (type_for call) parameters one.server one.code one.end
          one.found ready.live ready.room small handled one.code_fits one.end_fits
          (omega (arith, one.brief)) in
      let resp = answer h one.code one.end one.found in
      record {
        after = l';
        result = check_response (ok (heard link.slack resp)) >>= λ r. ok r;
        sent =
            ap (λ (cmd : List ℕ). exchange t peer (c, l) cmd (type_for call) (λ r. ok r)) e0
            ∙ ap
                (λ (x : (Client × Loop) × Result Response). (x.0, check_response x.1 >>= λ r. ok r))
                e;
        answered_as =
            client_sees-check_response (heard link.slack resp)
            ∙ ap ok (observe-heard link.slack resp)
            ∙ ap (λ (p : Memory × Answer). ok p.1) one.same;
        kept_as = ap view same ∙ ap (λ (p : Memory × Answer). p.0) one.same;
        ready_again = record { live = ready.live; room = room; sized = rw same one.sized };
      }

  one_call :
      (c : Client) (l : Loop) (call : Call)
      → IsReady c l
      → IsServable call
      → IsShort link.overhead call
      → Called c l call
  one_call c l (reads area address offset count) ready servable short =
      let mem = mem_of area address offset in
      call_lem c l 0x01 (reads area address offset count) (memory_command mem count []) ready
        (read_command_lem mem count) (omega arith) short (λ h slack. refl) servable
  one_call c l (writes area address offset count new) ready servable short =
      let mem = mem_of area address offset in
      call_lem c l 0x02 (writes area address offset count new) (memory_command mem count new) ready
        (write_command_lem mem count new) (omega arith) (omega (arith, link.overhead_small))
        (λ h slack.
          ap
            (λ (k : ℕ).
              memory_request h (command_code_value memory_area_write) mem count (new ++ slack) k)
            (omega arith))
        servable

  -- From a client and a simulator between two commands, a series of reads and writes of words and
  -- bits, each sent when the one before it is answered, inside the areas and past their end: what the
  -- client sees is exactly what the abstract memory that the simulator holds answers, on any link. The
  -- sums of a call fit 16 bits, a request fits the simulator's buffer and an answer the client's, what
  -- is written is as long as its count says, and a call for bits ends inside the area with its offset
  -- or past it without.
  pub call_all-serve_all :
      (c : Client) (l : Loop) (calls : List Call)
      → IsReady c l
      → All IsServable calls
      → All (IsShort link.overhead) calls
      → call_all t peer (c, l) calls ≡ ok (serve_all (view l.server) calls)
  unfolding call_all serve_all
  call_all-serve_all c l [] ready fine short = refl
  call_all-serve_all c l (call ∷ calls) ready (one_fine, fine) (one_short, short) =
      let one = one_call c l call ready one_fine one_short in
      let rest = call_all-serve_all (after_send c) one.after calls one.ready_again fine short in
      rw (one.sent, one.answered_as, rest, one.kept_as)
