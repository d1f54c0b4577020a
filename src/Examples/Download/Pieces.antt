-- ===== src/Examples/Download/Pieces.antt =====
-- The servers of arale/examples/simple/filetransfer send the same bytes.
use arale.Prelude.{
  ℕ, zero, suc, ◌≡◌, ◌≤◌, ◌<◌, refl, sym, ap, ◌∙◌, List, [], ◌∷◌, ◌++◌, map, some, ok, take, drop,
  length, length-take, length-drop, take-append-drop, append_assoc, append-nil, arith,
}
use arale.Net.Http.Text.{Bytes}
use arale.Examples.Multiplexer.Send.{concat}
use arale.Examples.Download.{
  sends, shuts, closes, io_buf_size, read_loop, read_file, send_whole, buf_size, null, open_file,
  on_connection, on_write_complete, owned_write_complete, complete_each, serve, owned_complete_each,
  owned_serve,
}

abbrev pub AreAtMost : ℕ → List Bytes → Type 0
AreAtMost n [] = Unit
AreAtMost n (d ∷ ds) = (length d ≤ n) × AreAtMost n ds

-- The rest of an open file goes out in pieces.
record Rest (rest : Bytes) : Type 0 where
  rounds : ℕ
  pieces : List Bytes
  by_pieces :
      complete_each rounds (open_file rest)
      ≡ ok (null, map (λ d. sends d) pieces ++ closes ∷ shuts ∷ [])
  by_owner :
      owned_complete_each rounds (some rest) ≡ (some [], map (λ d. sends d) pieces ++ shuts ∷ [])
  whole : concat pieces ≡ rest
  within : AreAtMost buf_size pieces

rest_lem : (m : ℕ) (rest : Bytes) → length rest ≤ m → Rest rest
unfolding complete_each on_write_complete owned_write_complete
rest_lem m [] h = record {
  rounds = 1;
  pieces = [];
  by_pieces = refl;
  by_owner = refl;
  whole = refl;
  within = tt;
}
rest_lem zero (c ∷ cs) h = absurd (omega arith)
rest_lem (suc m) (c ∷ cs) h =
    let d = take buf_size (c ∷ cs) in
    let l = length-drop buf_size (c ∷ cs) in
    let i = rest_lem m (drop buf_size (c ∷ cs)) (omega arith) in
    record {
      rounds = suc i.rounds;
      pieces = d ∷ i.pieces;
      by_pieces = rw i.by_pieces refl;
      by_owner = rw i.by_owner refl;
      whole = ap (λ x. d ++ x) i.whole ∙ take-append-drop buf_size (c ∷ cs);
      within = (omega (arith, length-take buf_size (c ∷ cs)), i.within);
    }

-- `readFile` reads to the end.
read_loop_lem :
    (fuel : ℕ) (file content : Bytes)
    → length file < fuel
    → read_loop fuel file content ≡ some (content ++ file)
unfolding read_loop
read_loop_lem zero file content h = absurd (omega arith)
read_loop_lem (suc fuel) [] content h = ap (λ x. some x) (sym (append-nil content))
read_loop_lem (suc fuel) (c ∷ cs) content h =
    let l = length-drop io_buf_size (c ∷ cs) in
    read_loop_lem fuel (drop io_buf_size (c ∷ cs)) (content ++ take io_buf_size (c ∷ cs))
      (omega arith)
    ∙ ap (λ x. some x)
        (append_assoc content (take io_buf_size (c ∷ cs)) (drop io_buf_size (c ∷ cs))
          ∙ ap (λ x. content ++ x) (take-append-drop io_buf_size (c ∷ cs)))

-- What the three servers do for a file.
pub record Downloads (content : Bytes) : Type 0 where
  pub rounds : ℕ
  pub pieces : List Bytes
  pub at_once : send_whole (suc (length content)) (some content) ≡ some (sends content ∷ shuts ∷ [])
  pub by_pieces :
      serve rounds (some content) ≡ ok (null, map (λ d. sends d) pieces ++ closes ∷ shuts ∷ [])
  pub by_owner :
      owned_serve rounds (some content) ≡ (some [], map (λ d. sends d) pieces ++ shuts ∷ [])
  pub whole : concat pieces ≡ content
  pub within : AreAtMost buf_size pieces

-- Download.cc sends a file at once, reading it in as many rounds as it has bytes and one more.
-- There is a number of completed writes after which Download2.cc and Download3.cc have sent the
-- same pieces, of at most 64 KiB each, that make up the file, in order, and then shut the write
-- side, Download2.cc after closing the file once.
pub serve-Downloads : (content : Bytes) → Downloads content
unfolding send_whole read_file serve on_connection owned_serve
serve-Downloads content =
    let d = take buf_size content in
    let i =
      rest_lem (length content) (drop buf_size content)
        (omega (arith, length-drop buf_size content)) in
    record {
      rounds = i.rounds;
      pieces = d ∷ i.pieces;
      at_once = rw (read_loop_lem (suc (length content)) content [] (omega arith)) refl;
      by_pieces = rw i.by_pieces refl;
      by_owner = rw i.by_owner refl;
      whole = ap (λ x. d ++ x) i.whole ∙ take-append-drop buf_size content;
      within = (omega (arith, length-take buf_size content), i.within);
    }
