-- ===== src/Client/Send.antt =====
-- `sendCommand` of fins/client_udp.go and fins/client_tcp.go.
use omron_hostlink_fins.Client.{Arrival, Client, Reply, Transport, arrivals, bytes_read}
use omron_hostlink_fins.Client.{check_response, next_header, read_failed, write_blocked}
use omron_hostlink_fins.Client.{write_failed}
use omron_hostlink_fins.Common.{Bool, List, Option, Result, [], err, false, hang}
use omron_hostlink_fins.Common.{if◌then◌else◌, ltb, none, ok, panic, some, ℕ, ◌++◌, ◌==◌}
use omron_hostlink_fins.Common.{◌>>=◌, ◌∷◌}
use omron_hostlink_fins.Common.Int.{negsuc, pos, ℤ}
use omron_hostlink_fins.Driver.Frames.{Response, encode_header}
use omron_hostlink_fins.Errors.{conn_error, response_timeout}

-- The `select` when no response comes: with no time limit it waits for ever.
unfoldable pub run_out : ℤ → Result Response
run_out (pos n) = if ltb 0 n then err (response_timeout n) else hang
run_out (negsuc n) = hang

abbrev pub no_answer : Client → Result Response
no_answer c = run_out c.response_timeout_ms

-- A sender and a receiver meet on one channel; on the nil channel nobody ever does.
abbrev pub same_channel : Option ℕ → Option ℕ → Bool
same_channel (some a) (some b) = a == b
same_channel _ _ = false

-- `c.resp[ans.header.serviceID] <- ans`, with one caller at `<-c.resp[sid]`: they meet if both cells
-- hold one channel; otherwise nobody receives what is sent, and the listener blocks.
unfoldable pub deliver : Client → ℕ → Response → Client × Result Response
deliver c sid ans =
    if same_channel (c.resp ans.header.service_id) (c.resp sid)
    then (c, ok ans)
    else (record c { listening = false }, no_answer c)

-- What a round of the listener comes to, and the rounds after it.
abbrev pub listened :
    Client
    → ℕ
    → (Client → Client × Result Response)
    → Result (Client × Option Response)
    → Client × Result Response
listened c sid later (ok (c', none)) = later c'
listened c sid later (ok (c', some ans)) = deliver c' sid ans
listened c sid later (err e) = (c, err e)
listened c sid later panic = (c, panic)
listened c sid later hang = (c, hang)

-- The loop over the reads that come while the caller waits.
unfoldable pub listen_reads : Transport → ℕ → List Arrival → Client → Client × Result Response
listen_reads t sid [] c = (c, no_answer c)
listen_reads t sid (read_failed ∷ more) c = (record c { listening = false }, no_answer c)
listen_reads t sid (bytes_read bytes ∷ more) c =
    listened c sid (listen_reads t sid more) (t.listen c bytes)

unfoldable pub await : Transport → Client → ℕ → Reply → Client × Result Response
await t c sid (write_failed e) = (c, err (conn_error e))
await t c sid write_blocked = (c, hang)
await t c sid (arrivals reads_made) =
    if c.listening then listen_reads t sid reads_made c else (c, no_answer c)

-- `W` is the state of the other side.
module _ {W : Type 0} (t : Transport) (peer : W → List ℕ → W × Reply) where
  -- The frame of a command is written, and the response to its header's id awaited.
  abbrev pub transmit : Client × W → ℕ → Result (List ℕ) → (Client × W) × Result Response
  transmit (c, w) sid (ok cmd) =
      let (w', reply) = peer w cmd in let (c', r) = await t c sid reply in ((c', w'), r)
  transmit s sid (err e) = (s, err e)
  transmit s sid panic = (s, panic)
  transmit s sid hang = (s, hang)

  unfoldable pub send_command : Client × W → List ℕ → ℕ → (Client × W) × Result Response
  send_command (c, w) command command_type =
      let (c', header) = next_header c in
      let bts = encode_header header ++ command in
      transmit (c', w) header.service_id (t.frame bts command_type)

  -- Every method sends one command, checks the response, and reads its result from it.
  unfoldable pub exchange :
      {A : Type 0} → Client × W → List ℕ → ℕ → (Response → Result A) → (Client × W) × Result A
  exchange s command command_type result =
      let (s', r) = send_command s command command_type in (s', check_response r >>= result)
