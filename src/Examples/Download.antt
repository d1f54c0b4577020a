-- ===== src/Examples/Download.antt =====
-- arale/examples/simple/filetransfer: three servers that send a file, whole (Download.cc) or in
-- pieces (Download2.cc and Download3.cc).
pub mod Pieces
mod Tests
use arale.Prelude.{
  ℕ, zero, suc, ◌*◌, Bool, true, false, List, [], ◌∷◌, ◌++◌, Option, none, some, Outcome, ok,
  undefined, ◌>>=◌, take, drop,
}
use arale.Net.Http.Text.{Bytes}

-- What a server does: bytes sent, the write side shut, and the file closed.
pub data Effect : Type 0 where
  sends : Bytes → Effect
  shuts closes : Effect

-- An open file is what is left to read of it. `fread` of `n` bytes, which reads fewer at the end.
abbrev pub fread : ℕ → Bytes → Bytes × Bytes
fread n file = (take n file, drop n file)

abbrev pub io_buf_size : ℕ
io_buf_size = 1024 * 1024

-- The loop of `readFile`, which may take as many rounds as `fuel`; none is out of fuel.
unfoldable pub read_loop : ℕ → Bytes → Bytes → Option Bytes
read_loop zero file content = none
read_loop (suc fuel) file content =
    let read = fread io_buf_size file in
    elim read.0 [ [] ↦ some content | c ∷ cs ↦ read_loop fuel read.1 (content ++ read.0) ]

-- A file that cannot be opened is read as empty.
unfoldable pub read_file : ℕ → Option Bytes → Option Bytes
unfolding read_loop
read_file fuel none = some []
read_file fuel (some file) = read_loop fuel file []

-- `onConnection` of a connection that is up, in Download.cc.
unfoldable pub send_whole : ℕ → Option Bytes → Option (List Effect)
unfolding read_file
send_whole fuel file = elim (read_file fuel file) [
  | none ↦ none
  | some content ↦ some (sends content ∷ shuts ∷ [])
]

abbrev pub buf_size : ℕ
buf_size = 64 * 1024

-- The context of a connection in Download2.cc: empty, or a file, or a null pointer.
pub data Context : Type 0 where
  empty null : Context
  open_file : Bytes → Context

unfoldable pub on_connection : Bool → Option Bytes → Context → Context × List Effect
on_connection true none c = (c, shuts ∷ [])
on_connection true (some file) c =
    let read = fread buf_size file in (open_file read.1, sends read.0 ∷ [])
on_connection false file empty = (empty, [])
on_connection false file null = (null, [])
on_connection false file (open_file rest) = (open_file rest, closes ∷ [])

-- `fread` from a null pointer is undefined.
unfoldable pub on_write_complete : Context → Outcome (Context × List Effect)
on_write_complete empty = ok (empty, [])
on_write_complete null = undefined
on_write_complete (open_file rest) =
    let read = fread buf_size rest in
    elim read.0 [
      | [] ↦ ok (null, closes ∷ shuts ∷ [])
      | c ∷ cs ↦ ok (open_file read.1, sends read.0 ∷ [])
    ]

-- The same in Download3.cc, where the context owns the file and closes it when it is destroyed.
abbrev pub owned_connection : Bool → Option Bytes → Option Bytes → Option Bytes × List Effect
owned_connection true none c = (c, shuts ∷ [])
owned_connection true (some file) c =
    let read = fread buf_size file in (some read.1, sends read.0 ∷ [])
owned_connection false file c = (c, [])

unfoldable pub owned_write_complete : Option Bytes → Option Bytes × List Effect
owned_write_complete none = (none, [])
owned_write_complete (some rest) =
    let read = fread buf_size rest in
    elim read.0 [ [] ↦ (some read.1, shuts ∷ []) | c ∷ cs ↦ (some read.1, sends read.0 ∷ []) ]

-- A connection that is up, and then `n` writes that are complete.
unfoldable pub complete_each : ℕ → Context → Outcome (Context × List Effect)
unfolding on_write_complete
complete_each zero c = ok (c, [])
complete_each (suc n) c = do
  (d, es) ← on_write_complete c
  (e, fs) ← complete_each n d
  ok (e, es ++ fs)

unfoldable pub serve : ℕ → Option Bytes → Outcome (Context × List Effect)
unfolding on_connection complete_each
serve n file =
    let up = on_connection true file empty in complete_each n up.0 >>= λ r. ok (r.0, up.1 ++ r.1)

abbrev pub owned_complete_each : ℕ → Option Bytes → Option Bytes × List Effect
owned_complete_each zero c = (c, [])
owned_complete_each (suc n) c =
    let first = owned_write_complete c in
    let rest = owned_complete_each n first.0 in (rest.0, first.1 ++ rest.1)

unfoldable pub owned_serve : ℕ → Option Bytes → Option Bytes × List Effect
unfolding owned_write_complete
owned_serve n file =
    let up = owned_connection true file none in
    let rest = owned_complete_each n up.0 in (rest.0, up.1 ++ rest.1)
