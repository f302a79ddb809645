-- ===== src/Client/Clock.antt =====
-- `ReadClock` of the clients: the time that it makes of a response.
use omron_hostlink_fins.Client.Read.{Clock, clock_field, clock_result, value_or_zero}
use omron_hostlink_fins.Common.{List, Slice, [], ap, arith, drop-append, if◌then◌else◌, length}
use omron_hostlink_fins.Common.{length-append, ltb, ok, refl, reslice_lem, ℕ, ◌%◌, ◌++◌, ◌+◌}
use omron_hostlink_fins.Common.{◌-◌, ◌<◌, ◌∙◌, ◌∷◌, ◌≡◌, ◌≤◌}
use omron_hostlink_fins.Driver.Bcd.{decode_bcd, decode_loop}
use omron_hostlink_fins.Driver.Bcd.Pairs.{decode_loop_pair}
use omron_hostlink_fins.Driver.Bcd.Steps.{digit_pair}
use omron_hostlink_fins.Header.{Header}

-- The clock's bytes: two digits each.
abbrev pub clock_bytes : Clock → List ℕ
clock_bytes t =
    digit_pair t.year
    ∷ digit_pair t.month
    ∷ digit_pair t.day
    ∷ digit_pair t.hour
    ∷ digit_pair t.minute
    ∷ digit_pair t.second
    ∷ []

one_pair : (v : ℕ) → decode_bcd (digit_pair v ∷ []) ≡ ok (v % 100)
unfolding decode_bcd decode_loop
one_pair v = decode_loop_pair 0 v [] (omega arith) ∙ ap ok (omega arith)

field_lem :
    (before after : List ℕ) (v n i : ℕ)
    → i ≡ length before
    → clock_field (record { cells = before ++ (digit_pair v ∷ after); len = n }) i ≡ ok (v % 100)
unfolding clock_field
field_lem before after v n i e =
    let p : Slice = record { cells = before ++ (digit_pair v ∷ after); len = n } in
    let counted = length-append before (digit_pair v ∷ after) in
    let one : i + 1 - i ≡ 1 = omega arith in
    rw
      (
        reslice_lem p i (i + 1) (omega arith) (omega arith),
        drop-append i before (digit_pair v ∷ after) (omega arith),
        one,
      )
      (ap value_or_zero (one_pair v))

-- A time as the PLC sends it, two digits to a byte, comes back with its year between 1950 and 2049,
-- whatever follows its six bytes.
pub clock_result_lem :
    (h : Header) (code end n : ℕ) (rest : List ℕ) (t : Clock)
    → 1950 ≤ t.year
    → t.year < 2050
    → t.month < 100
    → t.day < 100
    → t.hour < 100
    → t.minute < 100
    → t.second < 100
    → clock_result (record {
      header = h;
      command_code = code;
      end_code = end;
      payload = record { cells = clock_bytes t ++ rest; len = n };
    })
      ≡ ok t
unfolding clock_result
clock_result_lem h code end n rest t lo hi hmo hd hh hmi hs =
    let y = digit_pair t.year in
    let mo = digit_pair t.month in
    let d = digit_pair t.day in
    let hr = digit_pair t.hour in
    let mi = digit_pair t.minute in
    let se = digit_pair t.second in
    let in_century : (if ltb (t.year % 100) 50 then t.year % 100 + 2000 else t.year % 100 + 1900)
        ≡ t.year =
      ground arith in
    let month : t.month % 100 ≡ t.month = omega arith in
    let day : t.day % 100 ≡ t.day = omega arith in
    let hour : t.hour % 100 ≡ t.hour = omega arith in
    let minute : t.minute % 100 ≡ t.minute = omega arith in
    let second : t.second % 100 ≡ t.second = omega arith in
    rw (
      field_lem [] (mo ∷ d ∷ hr ∷ mi ∷ se ∷ rest) t.year n 0 refl,
      field_lem (y ∷ []) (d ∷ hr ∷ mi ∷ se ∷ rest) t.month n 1 refl,
      field_lem (y ∷ mo ∷ []) (hr ∷ mi ∷ se ∷ rest) t.day n 2 refl,
      field_lem (y ∷ mo ∷ d ∷ []) (mi ∷ se ∷ rest) t.hour n 3 refl,
      field_lem (y ∷ mo ∷ d ∷ hr ∷ []) (se ∷ rest) t.minute n 4 refl,
      field_lem (y ∷ mo ∷ d ∷ hr ∷ mi ∷ []) rest t.second n 5 refl,
      in_century,
      month,
      day,
      hour,
      minute,
      second,
    )
