-- ===== src/Client/Waiting.antt =====
-- `sendCommand` and `listenLoop` of the clients: which response a command gets.
use mathlib.Core.Path.{subst}
use omron_hostlink_fins.Address.{FinsAddress}
use omron_hostlink_fins.Client.{Arrival, Client, Reply, Transport, arrivals, bytes_read}
use omron_hostlink_fins.Client.{increment_sid, new_client, next_header, read_failed}
use omron_hostlink_fins.Client.{write_blocked, write_failed}
use omron_hostlink_fins.Client.Cells.{IsOwned, KeepsCells-IsOwned, Listens}
use omron_hostlink_fins.Client.Cells.{increment_sid-IsOwned, new_client-IsOwned}
use omron_hostlink_fins.Client.Send.{await, deliver, listen_reads, listened, no_answer}
use omron_hostlink_fins.Client.Send.{run_out, same_channel, send_command, transmit}
use omron_hostlink_fins.Common.{Bool, Bool-cases, List, Option, Result, [], ap, arith, err}
use omron_hostlink_fins.Common.{false, hang, if◌then◌else◌, inl, inr, length, none, ok}
use omron_hostlink_fins.Common.{ok-injective, panic, refl, some, sym, true, ℕ, ◌%◌, ◌+◌, ◌^◌}
use omron_hostlink_fins.Common.{◌∙◌, ◌∷◌, ◌≡◌, ◌≢◌}
use omron_hostlink_fins.Common.Int.{negsuc, pos, ℤ}
use omron_hostlink_fins.Common.Words.{to_byte}
use omron_hostlink_fins.Driver.Frames.{Response}
use omron_hostlink_fins.Header.{default_command_header, default_header}

module _ {W : Type 0} (t : Transport) (peer : W → List ℕ → W × Reply) where
  -- The client and the other side after a series of commands, each with its type.
  abbrev pub after_commands : Client × W → List (List ℕ × ℕ) → Client × W
  after_commands s [] = s
  after_commands s (x ∷ more) = after_commands (send_command t peer s x.0 x.1).0 more

-- A client afterwards and a result: the cells are owned, and a response has the id waited for.
record Answers (n sid : ℕ) (x : Client × Result Response) : Type 0 where
  still_owned : IsOwned n x.0
  own_id : (r : Response) → x.1 ≡ ok r → r.header.service_id ≡ sid

run_out_fails : (limit : ℤ) (r : Response) → run_out limit ≢ ok r
unfolding run_out
run_out_fails (pos n) r e = grind arith
run_out_fails (negsuc n) r e = cc

no_answer-Answers :
    (n : ℕ) (c c' : Client) (sid : ℕ) → IsOwned n c → Answers n sid (c, no_answer c')
no_answer-Answers n c c' sid m = record {
  still_owned = m;
  own_id = λ r e. absurd (run_out_fails c'.response_timeout_ms r e);
}

-- Two cells with one channel are one cell.
same_channel-id :
    (n : ℕ) (c : Client) (i j : ℕ) → IsOwned n c → same_channel (c.resp i) (c.resp j) ≡ true → i ≡ j
same_channel-id n c i j m e = go (c.resp i) (c.resp j) refl refl e
  where
    go : (x y : Option ℕ) → c.resp i ≡ x → c.resp j ≡ y → same_channel x y ≡ true → i ≡ j
    go (some a) (some b) ei ej e =
        let one : a ≡ b = ground arith in omega (arith, (m.owned i a ei).0, (m.owned j b ej).0)
    go none y ei ej e = cc
    go (some a) none ei ej e = cc

deliver-Answers :
    (n : ℕ) (c : Client) (sid : ℕ) (ans : Response)
    → IsOwned n c
    → Answers n sid (deliver c sid ans)
unfolding deliver
deliver-Answers n c sid ans m =
    elim (Bool-cases (same_channel (c.resp ans.header.service_id) (c.resp sid))) [
      | inl met ↦
          let one = same_channel-id n c ans.header.service_id sid m met in
          rw met (record {
            still_owned = m;
            own_id = λ r e. ap (λ (q : Response). q.header.service_id) (sym (ok-injective e)) ∙ one;
          })
      | inr alone ↦ rw alone (
          no_answer-Answers n (record c { listening = false }) c sid
            (record { all_made = m.all_made; counted = m.counted; owned = m.owned }))
    ]

failed-Answers :
    (n : ℕ) (c : Client) (sid : ℕ) (x : Result Response)
    → ((r : Response) → x ≢ ok r)
    → IsOwned n c
    → Answers n sid (c, x)
failed-Answers n c sid x bad m = record { still_owned = m; own_id = λ r e. absurd (bad r e) }

listened-Answers :
    (n : ℕ) (c : Client) (sid : ℕ) (later : Client → Client × Result Response)
    (got : Result (Client × Option Response))
    → IsOwned n c
    → Listens c got
    → ((c' : Client) → IsOwned n c' → Answers n sid (later c'))
    → Answers n sid (listened c sid later got)
unfolding Listens
listened-Answers n c sid later (ok (c', none)) m k next_one =
    next_one c' (KeepsCells-IsOwned n c c' k m)
listened-Answers n c sid later (ok (c', some ans)) m k next_one =
    deliver-Answers n c' sid ans (KeepsCells-IsOwned n c c' k m)
listened-Answers n c sid later (err _) m k next_one = failed-Answers n c sid _ (λ r e. cc) m
listened-Answers n c sid later panic m k next_one = failed-Answers n c sid _ (λ r e. cc) m
listened-Answers n c sid later hang m k next_one = failed-Answers n c sid _ (λ r e. cc) m

module _ (t : Transport)
    (listens : (c : Client) (bytes : List ℕ) → Listens c (t.listen c bytes)) where
  listen_reads-Answers :
      (n sid : ℕ) (reads_made : List Arrival) (c : Client)
      → IsOwned n c
      → Answers n sid (listen_reads t sid reads_made c)
  unfolding listen_reads
  listen_reads-Answers n sid [] c m = no_answer-Answers n c c sid m
  listen_reads-Answers n sid (read_failed ∷ more) c m =
      no_answer-Answers n (record c { listening = false }) c sid
        (record { all_made = m.all_made; counted = m.counted; owned = m.owned })
  listen_reads-Answers n sid (bytes_read bytes ∷ more) c m =
      listened-Answers n c sid _ (t.listen c bytes) m (listens c bytes)
        (λ c' m'. listen_reads-Answers n sid more c' m')

  Answers-if :
      (n : ℕ) (b : Bool) (sid : ℕ) (x y : Client × Result Response)
      → Answers n sid x
      → Answers n sid y
      → Answers n sid (if b then x else y)
  Answers-if n true sid x y hx hy = hx
  Answers-if n false sid x y hx hy = hy

  await-Answers :
      (n : ℕ) (c : Client) (sid : ℕ) (reply : Reply)
      → IsOwned n c
      → Answers n sid (await t c sid reply)
  unfolding await
  await-Answers n c sid (write_failed _) m = failed-Answers n c sid _ (λ r e. cc) m
  await-Answers n c sid write_blocked m = failed-Answers n c sid _ (λ r e. cc) m
  await-Answers n c sid (arrivals reads_made) m =
      Answers-if n c.listening sid _ _ (listen_reads-Answers n sid reads_made c m)
        (no_answer-Answers n c c sid m)

  module _ {W : Type 0} (peer : W → List ℕ → W × Reply) where
    -- What a command comes to, and what is left of the other side out of it.
    abbrev without_peer : (Client × W) × Result Response → Client × Result Response
    without_peer (s, r) = (s.0, r)

    transmit-Answers :
        (n : ℕ) (c : Client) (w : W) (sid : ℕ) (framed : Result (List ℕ))
        → IsOwned n c
        → Answers n sid (without_peer (transmit t peer (c, w) sid framed))
    transmit-Answers n c w sid (ok cmd) m = await-Answers n c sid (peer w cmd).1 m
    transmit-Answers n c w sid (err _) m = failed-Answers n c sid _ (λ r e. cc) m
    transmit-Answers n c w sid panic m = failed-Answers n c sid _ (λ r e. cc) m
    transmit-Answers n c w sid hang m = failed-Answers n c sid _ (λ r e. cc) m

    sent-Answers :
        (n : ℕ) (c : Client) (w : W) (command : List ℕ) (command_type : ℕ)
        → IsOwned n c
        → Answers
            (n + 1)
            (to_byte (c.sid + 1))
            (without_peer (send_command t peer (c, w) command command_type))
    unfolding send_command next_header increment_sid default_command_header default_header
    sent-Answers n c w command command_type m =
        transmit-Answers (n + 1) _ w _ _ (unfold increment_sid in increment_sid-IsOwned n c m)

    after_commands-IsOwned :
        (n : ℕ) (s : Client × W) (earlier : List (List ℕ × ℕ))
        → IsOwned n s.0
        → IsOwned (n + length earlier) (after_commands t peer s earlier).0
    after_commands-IsOwned n s [] m = subst (λ (k : ℕ). IsOwned k s.0) (omega arith) m
    after_commands-IsOwned n s (x ∷ more) m =
        subst (λ (k : ℕ). IsOwned k (after_commands t peer s (x ∷ more)).0) (omega arith)
          (after_commands-IsOwned (n + 1) (send_command t peer s x.0 x.1).0 more
            (sent-Answers n s.0 s.1 x.0 x.1 m).still_owned)

    -- On a transport whose listener leaves the cells alone, as both clients' do: after any series of
    -- commands of a new client, whatever came of them, as many channels have been made as there were
    -- commands, the last service id is their number modulo 256, and every cell holds none or one that
    -- was made for its id.
    pub after_commands-new_client :
        (local plc : FinsAddress) (w : W) (earlier : List (List ℕ × ℕ))
        → IsOwned (length earlier) (after_commands t peer (new_client local plc, w) earlier).0
    after_commands-new_client local plc w earlier =
        subst (λ (k : ℕ). IsOwned k (after_commands t peer (new_client local plc, w) earlier).0)
          (omega arith)
          (after_commands-IsOwned 0 (new_client local plc, w) earlier
            (new_client-IsOwned local plc))

    -- On a transport whose listener leaves the cells alone, as both clients' do: a response that
    -- `sendCommand` returns after any series of commands of a new client carries the number of its
    -- command, counted from 1, modulo 256, whatever reads the listener has made, of whatever bytes,
    -- and whatever came of the commands before.
    pub send_command-service_id :
        (local plc : FinsAddress) (w : W) (earlier : List (List ℕ × ℕ)) (command : List ℕ)
        (command_type : ℕ) (r : Response)
        → (send_command t peer
            (after_commands t peer (new_client local plc, w) earlier)
            command
            command_type).1
          ≡ ok r
        → r.header.service_id ≡ (length earlier + 1) % 2 ^ 8
    send_command-service_id local plc w earlier command command_type r e =
        let s = after_commands t peer (new_client local plc, w) earlier in
        let before = after_commands-new_client local plc w earlier in
        let sent = sent-Answers (length earlier) s.0 s.1 command command_type before in
        omega (arith, sent.own_id r e, before.counted)
