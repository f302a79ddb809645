-- ===== src/Server/Memory.antt =====
-- fins/udp_server.go: what the simulator is for, as an abstract memory. A memory is a function from
-- places to bytes; the areas' lists, the requests' encoding and the 16-bit sums are forgotten.
pub mod Views
pub mod Requests
pub mod Refinement
use omron_hostlink_fins.Common.{List, [], get_or, if◌then◌else◌, leb, length, ltb, suc, zero}
use omron_hostlink_fins.Common.{ℕ, ◌&&◌, ◌*◌, ◌+◌, ◌-◌, ◌∷◌}
use omron_hostlink_fins.Server.{dm_area_size}

pub record Memory : Type 0 where
  pub words : ℕ → ℕ
  pub bits : ℕ → ℕ

-- The `n` bytes from `lo` on.
abbrev pub range_of : (ℕ → ℕ) → ℕ → ℕ → List ℕ
range_of m lo zero = []
range_of m lo (suc n) = m lo ∷ range_of m (lo + 1) n

-- The bytes `new` from `lo` on, and what was there elsewhere.
abbrev pub overwrite : (ℕ → ℕ) → ℕ → List ℕ → ℕ → ℕ
overwrite m lo new i = if leb lo i && ltb i (lo + length new) then get_or new (i - lo) 0 else m i

-- What a client can ask for: a count of items of an area, from an address and a bit offset on, to be
-- read or to be written.
pub data Area : Type 0 where
  word_area : Area
  bit_area : Area

pub data Call : Type 0 where
  reads : Area → ℕ → ℕ → ℕ → Call
  writes : Area → ℕ → ℕ → ℕ → List ℕ → Call

-- What it sees: the bytes, that they are written, or a refusal.
pub data Answer : Type 0 where
  bytes_found : List ℕ → Answer
  bytes_written : Answer
  call_refused : Answer

-- The first place of the items, and how many places they take.
abbrev pub place : Area → ℕ → ℕ → ℕ
place word_area address offset = address
place bit_area address offset = address + offset

abbrev pub extent : Area → ℕ → ℕ
extent word_area count = count * 2
extent bit_area count = count

abbrev pub area_of : Memory → Area → ℕ → ℕ
area_of m word_area = m.words
area_of m bit_area = m.bits

abbrev pub with_area : Memory → Area → (ℕ → ℕ) → Memory
with_area m word_area new = record m { words = new }
with_area m bit_area new = record m { bits = new }

-- Each area has `dm_area_size` places. What does not lie inside it is refused and changes nothing.
unfoldable pub serve : Memory → Call → Memory × Answer
serve m (reads area address offset count) =
    let lo = place area address offset in
    if leb (lo + extent area count) dm_area_size
    then (m, bytes_found (range_of (area_of m area) lo (extent area count)))
    else (m, call_refused)
serve m (writes area address offset count new) =
    let lo = place area address offset in
    if leb (lo + extent area count) dm_area_size
    then (with_area m area (overwrite (area_of m area) lo new), bytes_written)
    else (m, call_refused)

-- A series of calls and what the client sees of it.
unfoldable pub serve_all : Memory → List Call → List Answer
serve_all m [] = []
serve_all m (call ∷ calls) = let (m', ans) = serve m call in ans ∷ serve_all m' calls
