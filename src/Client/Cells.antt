-- ===== src/Client/Cells.antt =====
-- The cells of `resp` in fins/client_udp.go and fins/client_tcp.go: whose channels they hold.
use omron_hostlink_fins.Address.{FinsAddress}
use omron_hostlink_fins.Client.{Client, increment_sid, new_client}
use omron_hostlink_fins.Common.{Bool, Option, Result, ap, arith, err, false, hang}
use omron_hostlink_fins.Common.{if◌then◌else◌, ok, panic, refl, some, sym, true, ℕ, ◌+◌, ◌<◌}
use omron_hostlink_fins.Common.{◌>>=◌, ◌∙◌, ◌≡◌}
use omron_hostlink_fins.Common.Words.{to_byte}
use omron_hostlink_fins.Driver.Frames.{Response}

-- What a round of a listener leaves of the cells.
pub record KeepsCells (c c' : Client) : Type 0 where
  pub same_resp : c'.resp ≡ c.resp
  pub same_made : c'.made ≡ c.made
  pub same_sid : c'.sid ≡ c.sid

unfoldable pub Listens : Client → Result (Client × Option Response) → Type 0
Listens c (ok (c', o)) = KeepsCells c c'
Listens c _ = Unit

pub Listens-ok : (c c' : Client) (o : Option Response) → KeepsCells c c' → Listens c (ok (c', o))
unfolding Listens
Listens-ok c c' o k = k

pub >>=-Listens {ℓ} :
    {X : Type ℓ} (c : Client) (m : Result X) (f : X → Result (Client × Option Response))
    → ((x : X) → Listens c (f x))
    → Listens c (m >>= f)
unfolding Listens
>>=-Listens c (ok x) f h = h x
>>=-Listens c (err e) f h = tt
>>=-Listens c panic f h = tt
>>=-Listens c hang f h = tt

pub Listens-if :
    (c : Client) (b : Bool) (x y : Result (Client × Option Response))
    → Listens c x
    → Listens c y
    → Listens c (if b then x else y)
Listens-if c true x y hx hy = hx
Listens-if c false x y hx hy = hy

-- The cells that the first `n` commands of a client leave: `n` channels have been made, and every cell
-- holds one that was made for its id.
pub record IsOwned (n : ℕ) (c : Client) : Type 0 where
  pub all_made : c.made ≡ n
  pub counted : c.sid ≡ to_byte n
  pub owned : (i ch : ℕ) → c.resp i ≡ some ch → (i ≡ to_byte (ch + 1)) × (ch < n)

pub new_client-IsOwned : (local plc : FinsAddress) → IsOwned 0 (new_client local plc)
unfolding new_client
new_client-IsOwned local plc = record { all_made = refl; counted = refl; owned = λ i ch e. cc }

pub increment_sid-IsOwned : (n : ℕ) (c : Client) → IsOwned n c → IsOwned (n + 1) (increment_sid c).0
unfolding increment_sid
increment_sid-IsOwned n c m = record {
  all_made = omega (arith, m.all_made);
  counted = omega (arith, m.counted);
  owned = λ i ch e. ground (arith, m.all_made, m.counted, m.owned i ch);
}

pub KeepsCells-IsOwned : (n : ℕ) (c c' : Client) → KeepsCells c c' → IsOwned n c → IsOwned n c'
KeepsCells-IsOwned n c c' k m = record {
  all_made = k.same_made ∙ m.all_made;
  counted = k.same_sid ∙ m.counted;
  owned = λ i ch e. m.owned i ch (ap (λ (cells : ℕ → Option ℕ). cells i) (sym k.same_resp) ∙ e);
}
