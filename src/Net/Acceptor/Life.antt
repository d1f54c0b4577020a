-- ===== src/Net/Acceptor/Life.antt =====
-- Acceptor.cc: what becomes of the descriptors from the constructor to the destructor.
use arale.Prelude.{
  ℕ, ◌≡◌, ◌<◌, refl, Bool, true, false, List, [], ◌∷◌, ◌++◌, Option, none, some, ◌==◌, arith,
}
use arale.Net.Channel.{Channel, enable_read, is_none_event}
use arale.Net.Sockets.{Errno, Address, Call, returned, aborted, Opened, opened, failed}
use arale.Net.Acceptor.{
  Acceptor, Effect, gets, closes, hands, started, new_acceptor, set_new_connection_callback,
  start_listening, destroy, handle_new_connection,
}

-- A connection that arrives: the results of `accept4`, `errno` from before, and the results of a
-- second `accept4` and of `open`.
abbrev pub Arrival : Type 0
Arrival = Opened × Address × Errno × Opened × Opened

abbrev pub handle : Arrival → Acceptor → Call (Acceptor × List Effect)
handle (first, peer, errno, second, null) a = handle_new_connection first peer errno second null a

abbrev pub after_first : List Effect → Call (Acceptor × List Effect) → Call (Acceptor × List Effect)
after_first es (returned (a, fs)) = returned (a, es ++ fs)
after_first es aborted = aborted

abbrev pub go_on :
    Call (Acceptor × List Effect)
    → (Acceptor → Call (Acceptor × List Effect))
    → Call (Acceptor × List Effect)
go_on aborted rest = aborted
go_on (returned (a, es)) rest = after_first es (rest a)

unfoldable pub handle_each : List Arrival → Acceptor → Call (Acceptor × List Effect)
handle_each [] a = returned (a, [])
handle_each (x ∷ xs) a = go_on (handle x a) (λ b. handle_each xs b)

-- The descriptor of an arrival is not 0.
abbrev pub IsNonzero : Opened → Type 0
IsNonzero (opened fd) = 0 < fd
IsNonzero (failed e) = Unit

abbrev pub AreNonzero : List Arrival → Type 0
AreNonzero [] = Unit
AreNonzero (x ∷ xs) = IsNonzero x.0 × AreNonzero xs

-- What an acceptor with a callback should do: hand each descriptor with its peer to the callback;
-- none if an `accept4` failed.
abbrev pub hand_over : Opened → Address → Option (List Effect) → Option (List Effect)
hand_over (failed e) peer rest = none
hand_over (opened fd) peer none = none
hand_over (opened fd) peer (some es) = some (gets fd ∷ hands fd peer ∷ es)

abbrev pub hand_over_each : List Arrival → Option (List Effect)
hand_over_each [] = some []
hand_over_each (x ∷ xs) = hand_over x.0 x.1 (hand_over_each xs)

abbrev pub call_of : Acceptor → Option (List Effect) → Call (Acceptor × List Effect)
call_of a none = aborted
call_of a (some es) = returned (a, es)

handle_opened :
    (fd : ℕ) (peer : Address) (errno : Errno) (second null : Opened) (a : Acceptor)
    → a.callback ≡ true
    → 0 < fd
    → handle_new_connection (opened fd) peer errno second null a
      ≡ returned (a, gets fd ∷ hands fd peer ∷ [])
unfolding handle_new_connection
handle_opened fd peer errno second null a h l =
    let e : (fd == 0) ≡ false = ground arith in rw (handle_new_connection, e) (rw h refl)

handle_each-call_of :
    (xs : List Arrival) (a : Acceptor)
    → a.callback ≡ true
    → AreNonzero xs
    → handle_each xs a ≡ call_of a (hand_over_each xs)
unfolding handle_each handle_new_connection
handle_each-call_of [] a h n = refl
handle_each-call_of ((failed e, peer, errno, second, null) ∷ xs) a h n = refl
handle_each-call_of ((opened fd, peer, errno, second, null) ∷ xs) a h n =
    rw (handle_opened fd peer errno second null a h n.0)
      (rw (handle_each-call_of xs a h n.1) (joined (hand_over_each xs)))
  where
    joined :
        (o : Option (List Effect))
        → after_first (gets fd ∷ hands fd peer ∷ []) (call_of a o)
          ≡ call_of a (hand_over (opened fd) peer o)
    joined none = refl
    joined (some es) = refl

-- A whole life: the constructor with its callback, `startListening`, the arrivals, the destructor.
abbrev pub finish : List Effect → Call (Acceptor × List Effect) → Call (Channel × List Effect)
finish es aborted = aborted
finish es (returned (a, fs)) = let end = destroy a in returned (end.0, es ++ (fs ++ end.1))

abbrev pub listen_and_handle :
    List Arrival → List Effect → Call Acceptor → Call (Channel × List Effect)
listen_and_handle xs es aborted = aborted
listen_and_handle xs es (returned a) = finish es (handle_each xs a)

abbrev pub life : Opened → Bool → Bool → Opened → List Arrival → Call (Channel × List Effect)
life socket bound listens null xs = elim (new_acceptor socket bound null) [
  | aborted ↦ aborted
  | returned (a, es) ↦
      listen_and_handle xs es (start_listening listens (set_new_connection_callback a))
]

-- The callback got every connection, and all other descriptors were closed.
pub record Ends (socket backup : ℕ) (handed : List Effect) (o : Call (Channel × List Effect))
    : Type 0 where
  pub channel : Channel
  pub returns :
      o
      ≡ returned
          (channel, gets socket ∷ gets backup ∷ (handed ++ closes backup ∷ closes socket ∷ []))
  pub quiet : is_none_event channel ≡ true
  pub out : channel.is_in_loop ≡ false

abbrev pub EndsWith : ℕ → ℕ → Option (List Effect) → Call (Channel × List Effect) → Type 0
EndsWith socket backup none o = o ≡ aborted
EndsWith socket backup (some handed) o = Ends socket backup handed o

-- An acceptor with a callback whose socket is made, bound and listening hands every descriptor
-- that is accepted, in order and with its peer, to the callback; when it is destroyed, its channel
-- waits for nothing and is out of the loop, and the backup and the socket are closed. But when one
-- accept4 fails, with whatever errno, the process is aborted, so that no connection is turned away
-- with the backup. No descriptor that is accepted is 0.
pub life-EndsWith :
    (socket backup : ℕ) (xs : List Arrival)
    → AreNonzero xs
    → EndsWith socket backup (hand_over_each xs) (life (opened socket) true true (opened backup) xs)
unfolding new_acceptor start_listening destroy
life-EndsWith socket backup xs n = ended (hand_over_each xs) (handle_each-call_of xs b refl n)
  where
    a : Acceptor
    a = set_new_connection_callback (started socket (opened backup)).0

    b : Acceptor
    b = record a { channel = enable_read a.channel; listening = true }

    ended :
        (o : Option (List Effect))
        → handle_each xs b ≡ call_of b o
        → EndsWith socket backup o (finish (gets socket ∷ gets backup ∷ []) (handle_each xs b))
    ended none e = rw e refl
    ended (some es) e = rw e (record { channel = _; returns = refl; quiet = refl; out = refl })
