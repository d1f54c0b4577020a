-- ===== src/Examples/Download/Tests.antt =====
-- A short file.
use arale.Prelude.{◌≡◌, refl, true, [], ◌∷◌, none, some, ok, undefined}
use arale.Examples.Download.{
  sends, shuts, closes, empty, null, on_connection, on_write_complete, serve, complete_each,
}
use arale.Examples.Download.Pieces.{Downloads, serve-Downloads}

serve_test :
    serve 1 (some (b'h' ∷ b'i' ∷ [])) ≡ ok (null, sends (b'h' ∷ b'i' ∷ []) ∷ closes ∷ shuts ∷ [])
unfolding serve on_connection complete_each on_write_complete
serve_test = refl

-- One completed write too many reads from a null pointer.
late_test : serve 2 (some []) ≡ undefined
unfolding serve on_connection complete_each on_write_complete
late_test = refl

no_file_test : on_connection true none empty ≡ (empty, shuts ∷ [])
unfolding on_connection
no_file_test = refl

serve-Downloads_example : Downloads (b'h' ∷ b'i' ∷ [])
serve-Downloads_example = serve-Downloads (b'h' ∷ b'i' ∷ [])
