-- ===== src/Server/Bounds.antt =====
-- fins/udp_server.go: the sizes of the data areas.
use mathlib.Core.Path.{subst}
use native.Mathlib.Decide.{dec_le}
use omron_hostlink_fins.CommandCode.{command_code_value, memory_area_read, memory_area_write}
use omron_hostlink_fins.Common.{>>=-eq-ok, Bool-cases, List, Slice, ap, arith, contents, drop}
use omron_hostlink_fins.Common.{inl, inr, length, length-append, length-drop, length-take}
use omron_hostlink_fins.Common.{of_list, ok, ok-injective, panic, reslice_lem, reslice_outside}
use omron_hostlink_fins.Common.{sym, take, ℕ, ◌++◌, ◌+◌, ◌-◌, ◌<◌, ◌==◌, ◌||◌, ◌∙◌, ◌≡◌, ◌≤◌}
use omron_hostlink_fins.Common.{◌⊎◌}
use omron_hostlink_fins.Driver.Commands.{MemoryAddress}
use omron_hostlink_fins.Driver.Frames.{Request, Response}
use omron_hostlink_fins.Server.{Outcome, Server, decode_parameters, dm_area_size, handle_area}
use omron_hostlink_fins.Server.{handle_command, handle_dm_bit, handle_dm_word, handler}
use omron_hostlink_fins.Server.{respond, splice, store}
use omron_hostlink_fins.Utils.{copy}
use omron_hostlink_fins.Utils.Copies.{length-copy}

pub length-splice :
    (area new : List ℕ) (lo : ℕ)
    → lo + length new ≤ length area
    → length (splice area lo new) ≡ length area
length-splice area new lo h = omega (
  arith,
  length-append (take lo area) (new ++ drop (lo + length new) area),
  length-append new (drop (lo + length new) area),
  length-take lo area,
  length-drop (lo + length new) area,
)

-- `store` inside the area is a splice of the bytes copied, and outside it panics.
pub store_lem :
    (area : List ℕ) (lo hi : ℕ) (src : Slice)
    → lo ≤ hi
    → hi ≤ length area
    → store area lo hi src
      ≡ ok (splice area lo (copy (take (hi - lo) (drop lo area)) (contents src)))
unfolding store
store_lem area lo hi src h k = rw (reslice_lem (of_list area) lo hi h k)

pub store_outside :
    (area : List ℕ) (lo hi : ℕ) (src : Slice)
    → (hi < lo) ⊎ (length area < hi)
    → store area lo hi src ≡ panic
unfolding store
store_outside area lo hi src h = rw (reslice_outside (of_list area) lo hi h)

pub length-store :
    (area : List ℕ) (lo hi : ℕ) (src : Slice) (out : List ℕ)
    → store area lo hi src ≡ ok out
    → length out ≡ length area
length-store area lo hi src out e = elim (dec_le lo hi) [
  | yes h ↦ elim (dec_le hi (length area)) [
    | yes k ↦
        let old = take (hi - lo) (drop lo area) in
        let new = copy old (contents src) in
        let size = length-copy old (contents src) in
        let fits : lo + length new ≤ length area =
          omega (arith, length-take (hi - lo) (drop lo area), length-drop lo area) in
        rw (← ok-injective (sym (store_lem area lo hi src h k) ∙ e))
          (length-splice area new lo fits)
    | no k ↦ cc (store_outside area lo hi src (inr (omega arith)))
  ]
  | no h ↦ cc (store_outside area lo hi src (inl (omega arith)))
]

-- Both data areas keep the size that `NewPLCSimulator` gives them.
pub record IsSized (s : Server) : Type 0 where
  pub words : length s.dmarea ≡ dm_area_size
  pub bits : length s.bitdmarea ≡ dm_area_size

module _ (s : Server) (sized : IsSized s) (r : Request) where
  handle_dm_word-IsSized :
      (mem : MemoryAddress) (ic : ℕ) (out : Outcome)
      → handle_dm_word s r mem ic ≡ ok out
      → IsSized out.0
  unfolding handle_dm_word
  handle_dm_word-IsSized mem ic out e = grind (arith, length-store)

  handle_dm_bit-IsSized :
      (mem : MemoryAddress) (ic : ℕ) (out : Outcome)
      → handle_dm_bit s r mem ic ≡ ok out
      → IsSized out.0
  unfolding handle_dm_bit
  handle_dm_bit-IsSized mem ic out e = grind (arith, length-store)

  handle_area-IsSized :
      (mem : MemoryAddress) (ic : ℕ) (out : Outcome)
      → handle_area s r mem ic ≡ ok out
      → IsSized out.0
  unfolding handle_area
  handle_area-IsSized mem ic out e =
      ground (arith, handle_dm_word-IsSized mem ic out, handle_dm_bit-IsSized mem ic out)

  handle_command-IsSized : (out : Outcome) → handle_command s r ≡ ok out → IsSized out.0
  unfolding handle_command
  handle_command-IsSized out e =
      elim (Bool-cases (
        r.command_code == command_code_value memory_area_read
        || r.command_code == command_code_value memory_area_write)) [
          | inl known ↦
              let (p, _, h) =
                >>=-eq-ok (decode_parameters r.payload) (λ p. handle_area s r p.0 p.1)
                  (rw known at e) in
              handle_area-IsSized p.0 p.1 out h
          | inr other ↦ rw (← ok-injective (rw other at e)) sized
        ]

  -- When both data areas have the size that `NewPLCSimulator` makes and a request is answered, both
  -- have it afterwards.
  pub handler-IsSized : (s' : Server) (resp : Response) → handler s r ≡ ok (s', resp) → IsSized s'
  unfolding handler
  handler-IsSized s' resp e =
      let (out, h, k) = >>=-eq-ok (handle_command s r) (λ out. ok (out.0, respond r out)) e in
      subst IsSized (ap (λ (q : Server × Response). q.0) (ok-injective k))
        (handle_command-IsSized out h)
