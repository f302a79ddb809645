-- ===== src/Client/Words.antt =====
-- The loops of `ReadWords` and `WriteWords` on whole lists of words.
use mathlib.Core.List.{append-nil, append_assoc}
use omron_hostlink_fins.Client.Read.{words_loop}
use omron_hostlink_fins.Client.Write.{done, fill_words}
use omron_hostlink_fins.Common.{All, List, Slice, [], ap, arith, drop, drop-append, length}
use omron_hostlink_fins.Common.{length-append, length-drop, length-replicate, le→leb, ok, refl}
use omron_hostlink_fins.Common.{replicate, reslice_lem, sym, take, take-append, take_all, ℕ}
use omron_hostlink_fins.Common.{◌*◌, ◌++◌, ◌+◌, ◌-◌, ◌∙◌, ◌∷◌, ◌≡◌, ◌≤◌}
use omron_hostlink_fins.Common.Binary.{ByteOrder, big_endian, get_uint16, get_uint16-bytes}
use omron_hostlink_fins.Common.Binary.{little_endian, uint16_bytes}
use omron_hostlink_fins.Common.Words.{IsUint16}

-- The bytes of words, one after the other.
unfoldable pub words_bytes : ByteOrder → List ℕ → List ℕ
words_bytes order [] = []
words_bytes order (v ∷ words) = uint16_bytes order v ++ words_bytes order words

length-uint16_bytes : (order : ByteOrder) (v : ℕ) → length (uint16_bytes order v) ≡ 2
length-uint16_bytes big_endian v = refl
length-uint16_bytes little_endian v = refl

pub length-words_bytes :
    (order : ByteOrder) (words : List ℕ) → length (words_bytes order words) ≡ length words * 2
unfolding words_bytes
length-words_bytes order [] = refl
length-words_bytes order (v ∷ words) = omega (
  arith,
  length-append (uint16_bytes order v) (words_bytes order words),
  length-uint16_bytes order v,
  length-words_bytes order words,
)

-- From index `i` on the loop keeps what it has written and fills the rest of the buffer.
fill_words_from :
    (order : ByteOrder) (words : List ℕ) (i : ℕ) (done bts : List ℕ)
    → length done ≡ i * 2
    → take (i * 2) bts ≡ done
    → length bts ≡ (i + length words) * 2
    → fill_words order words i bts ≡ ok (done ++ words_bytes order words)
unfolding fill_words words_bytes
fill_words_from order [] i done bts hd ht hb =
    rw append-nil (ap ok (sym (take_all (i * 2) bts (omega arith)) ∙ ht))
fill_words_from order (v ∷ words) i done bts hd ht hb =
    let item = uint16_bytes order v in
    let next = done ++ (item ++ drop (i * 2 + 2) bts) in
    let more : length (done ++ item) ≡ (i + 1) * 2 =
      omega (arith, length-append done item, length-uint16_bytes order v) in
    let kept : take ((i + 1) * 2) next ≡ done ++ item =
      rw (← append_assoc) (take-append ((i + 1) * 2) (done ++ item) _ more) in
    let size : length next ≡ (i + 1 + length words) * 2 = omega (
      arith,
      length-append done (item ++ drop (i * 2 + 2) bts),
      length-append item (drop (i * 2 + 2) bts),
      length-uint16_bytes order v,
      length-drop (i * 2 + 2) bts,
    ) in
    rw (le→leb (i * 2 + 2) (length bts) (omega arith), ht)
      (fill_words_from order words (i + 1) (done ++ item) next more kept size ∙ rw append_assoc)

-- The loop of `WriteWords` on a fresh buffer of twice as many bytes as there are words fills it
-- with the bytes of the words in the given order and does not panic.
pub fill_words_lem :
    (order : ByteOrder) (words : List ℕ)
    → fill_words order words 0 (replicate (2 * length words) 0) ≡ ok (words_bytes order words)
fill_words_lem order words =
    fill_words_from order words 0 [] (replicate (2 * length words) 0) refl refl
      (length-replicate {A = ℕ} (2 * length words) 0 ∙ omega arith)

item_read :
    (order : ByteOrder) (v : ℕ) (xs ys : List ℕ)
    → IsUint16 v
    → get_uint16 order (take 2 ((uint16_bytes order v ++ xs) ++ ys)) ≡ ok v
item_read big_endian v xs ys h = get_uint16-bytes big_endian v [] h
item_read little_endian v xs ys h = get_uint16-bytes little_endian v [] h

-- The loop of `ReadWords` reads 16-bit words back from their bytes, when index `i` is where these
-- begin in the data, whatever stands before and behind them.
pub words_loop_lem :
    (order : ByteOrder) (words : List ℕ) (i n : ℕ) (before after : List ℕ)
    → All IsUint16 words
    → length before ≡ i * 2
    → words_loop order
        (record { cells = before ++ (words_bytes order words ++ after); len = n })
        i
        (length words)
      ≡ ok words
unfolding words_loop words_bytes
words_loop_lem order [] i n before after h hb = refl
words_loop_lem order (v ∷ words) i n before after (hv, h) hb =
    let item = uint16_bytes order v in
    let tail = (item ++ words_bytes order words) ++ after in
    let p : Slice = record { cells = before ++ tail; len = n } in
    let two : i * 2 + 2 - i * 2 ≡ 2 = omega arith in
    let fits : i * 2 + 2 ≤ length (before ++ tail) = omega (
      arith,
      length-append before tail,
      length-append (item ++ words_bytes order words) after,
      length-append item (words_bytes order words),
      length-uint16_bytes order v,
    ) in
    let more : length (before ++ item) ≡ (i + 1) * 2 =
      omega (arith, length-append before item, length-uint16_bytes order v) in
    let regroup : before ++ tail ≡ (before ++ item) ++ (words_bytes order words ++ after) =
      simp append_assoc in
    let rest : words_loop order p (i + 1) (length words) ≡ ok words =
      rw regroup (words_loop_lem order words (i + 1) n (before ++ item) after h more) in
    rw (
      reslice_lem p (i * 2) (i * 2 + 2) (omega arith) fits,
      two,
      drop-append (i * 2) before tail hb,
      item_read order v (words_bytes order words) after hv,
      rest,
    )
