-- ===== src/Net/Buffer/Tests.antt =====
-- Runs of the buffer, and its theorems at concrete inputs.
use arale.Prelude.{inl, ◌≡◌, refl, some, List, [], ◌∷◌, ok, assertion, arith}
use arale.Net.Buffer.{
  Buffer, new, copy_in, copy_out, resize, retrieve, has_written, unwrite, move_to_front, grow,
  make_space, ensure_writable_bytes, write_out, append, prepend, find_crlf, search_crlf,
}
use arale.Net.Buffer.Layout.{IsValid, content}
use arale.Net.Buffer.Space.{Yields}
use arale.Net.Buffer.Append.{AppendCase, append_cases, prepend-Yields}
use arale.Net.Buffer.Allowed.{AreAllowed, run-Yields}
use arale.Net.Buffer.Queue.{Call, appends, prepends, retrieves, run, run-run_queue}

-- "AB" behind eight bytes of room, and two free bytes.
abbrev two_letters : Buffer
two_letters = record {
  bytes = 0 ∷ 0 ∷ 0 ∷ 0 ∷ 0 ∷ 0 ∷ 0 ∷ 0 ∷ b'A' ∷ b'B' ∷ 0 ∷ 0 ∷ [];
  read_index = 8;
  write_index = 10;
}

abbrev nothing_read : Buffer
nothing_read = record two_letters { read_index = 8; write_index = 8 }

runs_grow :
    append (1 ∷ 2 ∷ 3 ∷ 4 ∷ 5 ∷ 6 ∷ 7 ∷ 8 ∷ 9 ∷ 10 ∷ 11 ∷ []) two_letters
    ≡ ok (record {
      bytes =
          0 ∷ 0 ∷ 0 ∷ 0 ∷ 0 ∷ 0 ∷ 0 ∷ 0 ∷ b'A' ∷ b'B' ∷ 1 ∷ 2 ∷ 3 ∷ 4 ∷ 5 ∷ 6 ∷ 7 ∷ 8 ∷ 9 ∷ 10 ∷ 11
          ∷ [];
      read_index = 8;
      write_index = 21;
    })
unfolding append ensure_writable_bytes make_space grow resize write_out copy_in has_written
runs_grow = refl

runs_refused : append (1 ∷ 2 ∷ 3 ∷ []) two_letters ≡ assertion
unfolding append ensure_writable_bytes make_space move_to_front copy_out copy_in
runs_refused = refl

-- Only the size that the constructor has anyway passes its assertion.
runs_new : new 2048 ≡ assertion
unfolding new
runs_new = refl

-- `unwrite` moves the end forward.
runs_unwrite : unwrite 1 two_letters ≡ ok (record two_letters { write_index = 11 })
unfolding unwrite
runs_unwrite = refl

runs_crlf :
    find_crlf (record { bytes = b'a' ∷ 13 ∷ 13 ∷ 10 ∷ 7 ∷ []; read_index = 0; write_index = 5 })
    ≡ some 2
unfolding find_crlf search_crlf
runs_crlf = refl

two_letters-IsValid : IsValid two_letters
two_letters-IsValid = omega arith

nothing_read-IsValid : IsValid nothing_read
nothing_read-IsValid = omega arith

append_cases_example :
    AppendCase (67 ∷ 68 ∷ 69 ∷ []) two_letters (append (67 ∷ 68 ∷ 69 ∷ []) two_letters)
append_cases_example =
    append_cases (67 ∷ 68 ∷ 69 ∷ []) two_letters two_letters-IsValid (omega arith)

prepend-Yields_example : Yields (1 ∷ 2 ∷ 65 ∷ 66 ∷ []) (prepend (1 ∷ 2 ∷ []) two_letters)
prepend-Yields_example = prepend-Yields (1 ∷ 2 ∷ []) two_letters two_letters-IsValid (omega arith)

abbrev calls : List Call
calls = appends (67 ∷ []) ∷ retrieves 2 ∷ prepends (7 ∷ []) ∷ []

abbrev after_calls : Buffer
after_calls = record {
  bytes = 0 ∷ 0 ∷ 0 ∷ 0 ∷ 0 ∷ 0 ∷ 0 ∷ 0 ∷ b'A' ∷ 7 ∷ b'C' ∷ 0 ∷ [];
  read_index = 9;
  write_index = 11;
}

run-calls : run calls two_letters ≡ ok after_calls
unfolding run append ensure_writable_bytes write_out copy_in has_written retrieve prepend
run-calls = refl

run-run_queue_example : IsValid after_calls × (content after_calls ≡ 7 ∷ 67 ∷ [])
run-run_queue_example =
    run-run_queue calls two_letters after_calls two_letters-IsValid (omega arith) run-calls

calls-AreAllowed : AreAllowed calls two_letters
unfolding append ensure_writable_bytes write_out copy_in has_written retrieve prepend
calls-AreAllowed = (inl (omega arith), (omega arith, (omega arith, tt)))

run-Yields_example : Yields (7 ∷ 67 ∷ []) (run calls two_letters)
run-Yields_example = run-Yields calls two_letters two_letters-IsValid calls-AreAllowed
