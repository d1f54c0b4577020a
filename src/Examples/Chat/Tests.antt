-- ===== src/Examples/Chat/Tests.antt =====
-- Two readers of one list.
use arale.Prelude.{◌≡◌, refl, true, false, List, [], ◌∷◌, ok}
use arale.Examples.Chat.{insert, erase}
use arale.Examples.Chat.Shared.{Server, new_server, Turn, changes, begins, goes_on, turns}
use arale.Examples.Chat.Snapshot.{copies, copies_turns, new_server-copies}

insert_test : insert 5 (insert 2 (insert 5 (insert 9 []))) ≡ 2 ∷ 5 ∷ 9 ∷ []
unfolding insert
insert_test = refl

-- Connection 4 goes down while a message is passed on.
abbrev taken : List Turn
taken =
    changes true 4
    ∷ changes true 3
    ∷ begins (b'a' ∷ [])
    ∷ goes_on 0
    ∷ changes false 4
    ∷ begins (b'b' ∷ [])
    ∷ goes_on 0
    ∷ goes_on 1
    ∷ goes_on 0
    ∷ goes_on 0
    ∷ []

new_server-copies_example :
    (u : Server) × (turns taken new_server
      ≡ ok (u, (copies_turns taken (record { list = []; reading = [] })).1))
    × (copies u ≡ (copies_turns taken (record { list = []; reading = [] })).0)
new_server-copies_example = new_server-copies taken

taken_test :
    (copies_turns taken (record { list = []; reading = [] })).1
    ≡ record { to = 3; msg = b'a' ∷ [] }
      ∷ record { to = 4; msg = b'a' ∷ [] }
      ∷ record { to = 3; msg = b'b' ∷ [] }
      ∷ []
unfolding insert erase
taken_test = refl
