-- ===== src/Server/Memory/Refinement.antt =====
-- fins/udp_server.go: the simulator's `handler` is the abstract memory.
use native.Mathlib.Decide.{dec_le}
use omron_hostlink_fins.CommandCode.{command_code_value, memory_area_read, memory_area_write}
use omron_hostlink_fins.Common.{All, List, [], ap, arith, drop, inl, inr, leb-false, length}
use omron_hostlink_fins.Common.{length-append, length-take, le→leb, of_list, ok, refl, take}
use omron_hostlink_fins.Common.{take-append, ℕ, ◌*◌, ◌++◌, ◌+◌, ◌∷◌, ◌≡◌}
use omron_hostlink_fins.EndCode.{address_range_exceeded, end_code_value, normal_completion}
use omron_hostlink_fins.Header.{Header}
use omron_hostlink_fins.Server.{Server, dm_area_size}
use omron_hostlink_fins.Server.Bits.{handler_exceeded_bits, handler_read_bits}
use omron_hostlink_fins.Server.Bits.{handler_write_bits}
use omron_hostlink_fins.Server.Bounds.{IsSized, handler-IsSized}
use omron_hostlink_fins.Server.Memory.{Call, bit_area, bytes_found, bytes_written, reads}
use omron_hostlink_fins.Server.Memory.{serve, serve_all, word_area, writes}
use omron_hostlink_fins.Server.Memory.Requests.{IsServable, Serves, handle_all, mem_of, view}
use omron_hostlink_fins.Server.Memory.Views.{byte_at-splice, take-drop_range}
use omron_hostlink_fins.Server.ReadWrite.{handler_exceeded, handler_read, handler_write}

module _ (s : Server) (h : Header) (slack : List ℕ) (sized : IsSized s) where
  reads_words :
      (address offset count : ℕ)
      → IsServable (reads word_area address offset count)
      → Serves s h slack (reads word_area address offset count)
  unfolding serve
  reads_words address offset count small = elim (dec_le (address + count * 2) dm_area_size) [
    | yes fits ↦ record {
      server = s;
      code = command_code_value memory_area_read;
      end = end_code_value normal_completion;
      found = record { cells = drop address s.dmarea; len = count * 2 };
      handled =
          handler_read s h (mem_of word_area address offset) count 6 slack (omega arith)
            (omega arith) sized refl fits;
      code_fits = omega arith;
      end_fits = omega arith;
      brief = omega (arith, length-take (count * 2) (drop address s.dmarea));
      sized = sized;
      same = rw (le→leb _ _ fits) (
          ap (λ (xs : List ℕ). (view s, bytes_found xs))
            (take-drop_range s.dmarea address (count * 2) (omega (arith, sized.words))));
    }
    | no past ↦ record {
      server = s;
      code = command_code_value memory_area_read;
      end = end_code_value address_range_exceeded;
      found = of_list [];
      handled =
          handler_exceeded s h (mem_of word_area address offset) count 6 slack (omega arith)
            (omega arith) (command_code_value memory_area_read) refl refl (omega arith) small;
      code_fits = omega arith;
      end_fits = omega arith;
      brief = omega arith;
      sized = sized;
      same = rw (leb-false (address + count * 2) dm_area_size (omega arith));
    }
  ]

  writes_words :
      (address offset count : ℕ) (new : List ℕ)
      → IsServable (writes word_area address offset count new)
      → Serves s h slack (writes word_area address offset count new)
  unfolding serve
  writes_words address offset count new (small, long) =
      let mem = mem_of word_area address offset in
      elim (dec_le (address + count * 2) dm_area_size) [
        | yes fits ↦
            let answered_so =
              handler_write s h mem count (6 + length new) (new ++ slack) (omega arith)
                (omega arith) sized refl fits (omega (arith, length-append new slack)) in
            let whole : take (count * 2) (new ++ slack) ≡ new =
              take-append (count * 2) new slack long in
            record {
              server = _;
              code = command_code_value memory_area_write;
              end = end_code_value normal_completion;
              found = of_list [];
              handled = answered_so;
              code_fits = omega arith;
              end_fits = omega arith;
              brief = omega arith;
              sized = handler-IsSized s sized _ _ _ answered_so;
              same =
                  rw (le→leb _ _ fits, whole)
                    (ap (λ (m : ℕ → ℕ). (record (view s) { words = m }, bytes_written))
                      (byte_at-splice s.dmarea new address (omega (arith, sized.words))));
            }
        | no past ↦ record {
          server = s;
          code = command_code_value memory_area_write;
          end = end_code_value address_range_exceeded;
          found = of_list [];
          handled =
              handler_exceeded s h mem count (6 + length new) (new ++ slack) (omega arith)
                (omega arith) (command_code_value memory_area_write) refl refl (omega arith) small;
          code_fits = omega arith;
          end_fits = omega arith;
          brief = omega arith;
          sized = sized;
          same = rw (leb-false (address + count * 2) dm_area_size (omega arith));
        }
      ]

  reads_bits :
      (address offset count : ℕ)
      → IsServable (reads bit_area address offset count)
      → Serves s h slack (reads bit_area address offset count)
  unfolding serve
  reads_bits address offset count (small, inl fits) = record {
    server = s;
    code = command_code_value memory_area_read;
    end = end_code_value normal_completion;
    found = record { cells = drop (address + offset) s.bitdmarea; len = count };
    handled =
        handler_read_bits s h (mem_of bit_area address offset) count 6 slack (omega arith)
          (omega arith) sized refl fits;
    code_fits = omega arith;
    end_fits = omega arith;
    brief = omega (arith, length-take count (drop (address + offset) s.bitdmarea));
    sized = sized;
    same = rw (le→leb _ _ fits) (
        ap (λ (xs : List ℕ). (view s, bytes_found xs))
          (take-drop_range s.bitdmarea (address + offset) count (omega (arith, sized.bits))));
  }
  reads_bits address offset count (small, inr past) = record {
    server = s;
    code = command_code_value memory_area_read;
    end = end_code_value address_range_exceeded;
    found = of_list [];
    handled =
        handler_exceeded_bits s h (mem_of bit_area address offset) count 6 slack (omega arith)
          (omega arith) sized refl (command_code_value memory_area_read) refl past small;
    code_fits = omega arith;
    end_fits = omega arith;
    brief = omega arith;
    sized = sized;
    same = rw (leb-false (address + offset + count) dm_area_size (omega arith));
  }

  writes_bits :
      (address offset count : ℕ) (new : List ℕ)
      → IsServable (writes bit_area address offset count new)
      → Serves s h slack (writes bit_area address offset count new)
  unfolding serve
  writes_bits address offset count new ((small, inl fits), long) =
      let mem = mem_of bit_area address offset in
      let answered_so =
        handler_write_bits s h mem count (6 + length new) (new ++ slack) (omega arith) (omega arith)
          sized refl fits (omega (arith, length-append new slack)) in
      let whole : take count (new ++ slack) ≡ new = take-append count new slack long in
      record {
        server = _;
        code = command_code_value memory_area_write;
        end = end_code_value normal_completion;
        found = of_list [];
        handled = answered_so;
        code_fits = omega arith;
        end_fits = omega arith;
        brief = omega arith;
        sized = handler-IsSized s sized _ _ _ answered_so;
        same =
            rw (le→leb _ _ fits, whole)
              (ap (λ (m : ℕ → ℕ). (record (view s) { bits = m }, bytes_written))
                (byte_at-splice s.bitdmarea new (address + offset) (omega (arith, sized.bits))));
      }
  writes_bits address offset count new ((small, inr past), long) = record {
    server = s;
    code = command_code_value memory_area_write;
    end = end_code_value address_range_exceeded;
    found = of_list [];
    handled =
        handler_exceeded_bits s h (mem_of bit_area address offset) count (6 + length new)
          (new ++ slack) (omega arith) (omega arith) sized refl
          (command_code_value memory_area_write) refl past small;
    code_fits = omega arith;
    end_fits = omega arith;
    brief = omega arith;
    sized = sized;
    same = rw (leb-false (address + offset + count) dm_area_size (omega arith));
  }

  -- `handler` answers every such call as the abstract memory does, and leaves it as that does.
  pub handler-serve : (call : Call) → IsServable call → Serves s h slack call
  handler-serve (reads word_area address offset count) ok_call =
      reads_words address offset count ok_call
  handler-serve (reads bit_area address offset count) ok_call =
      reads_bits address offset count ok_call
  handler-serve (writes word_area address offset count new) ok_call =
      writes_words address offset count new ok_call
  handler-serve (writes bit_area address offset count new) ok_call =
      writes_bits address offset count new ok_call

-- From any simulator with areas of their full size, a series of read and write calls, for words and
-- for bits, inside the areas and past their end, gives the client exactly the answers of the abstract
-- memory that the simulator holds, whatever lies behind each request in the buffer. The sums of a
-- call fit 16 bits, what is written is as long as its count says, and a call for bits ends inside the
-- area with its offset or past it without.
pub handle_all-serve_all :
    (s : Server) (h : Header) (slack : List ℕ) (calls : List Call)
    → IsSized s
    → All IsServable calls
    → handle_all s h slack calls ≡ ok (serve_all (view s) calls)
unfolding handle_all serve_all
handle_all-serve_all s h slack [] sized fine = refl
handle_all-serve_all s h slack (call ∷ calls) sized (ok_call, fine) =
    let one = handler-serve s h slack sized call ok_call in
    rw (← one.same, one.handled, handle_all-serve_all one.server h slack calls one.sized fine)
