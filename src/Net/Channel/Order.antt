-- ===== src/Net/Channel/Order.antt =====
-- Channel.cc, `handleEvent`: which callbacks run, and in which order; and what the changes of the
-- events in Channel.h do to the two tests.
use arale.Prelude.{
  ◌≡◌, refl, Bool, true, false, not, ◌&&◌, ◌||◌, List, [], ◌∷◌, ◌++◌, ℕ, ◌<◌, if◌then◌else◌, arith,
}
use arale.Net.Channel.{
  Channel, Revents, Callbacks, Callback, on_close, on_error, on_read, on_write, when, handle_event,
  handle_event_with_guard, enable_read, disable_read, enable_write, disable_write, disable_all,
  is_reading, is_writing, is_none_event,
}

-- How often a callback is called.
abbrev pub same_callback : Callback → Callback → ℕ
same_callback on_close on_close = 1
same_callback on_error on_error = 1
same_callback on_read on_read = 1
same_callback on_write on_write = 1
same_callback _ _ = 0

abbrev pub place : Callback → ℕ
place on_close = 1
place on_error = 2
place on_read = 3
place on_write = 4

-- All in the order of `place`, each at most once, after the place `n`.
abbrev pub IsInOrder : ℕ → List Callback → Type 0
IsInOrder n [] = Unit
IsInOrder n (c ∷ cs) = (n < place c) × IsInOrder (place c) cs

abbrev pub calls : Callback → List Callback → Bool
calls a [] = false
calls on_close (on_close ∷ cs) = true
calls on_error (on_error ∷ cs) = true
calls on_read (on_read ∷ cs) = true
calls on_write (on_write ∷ cs) = true
calls a (c ∷ cs) = calls a cs

-- Which callback is due for what `poll` reported.
abbrev pub is_due : Callback → Revents → Callbacks → Bool
is_due on_close r k = (r.pollhup && not r.pollin) && k.close
is_due on_error r k = (r.pollerr || r.pollnval) && k.error
is_due on_read r k = (r.pollin || (r.pollpri || r.pollrdhup)) && k.read
is_due on_write r k = r.pollout && k.write

lower-IsInOrder : (m n : ℕ) (l : List Callback) → n < m → IsInOrder m l → IsInOrder n l
lower-IsInOrder m n [] h k = tt
lower-IsInOrder m n (c ∷ cs) h (j, k) = (omega arith, k)

when-IsInOrder :
    (t : Bool) (n : ℕ) (c : Callback) (l : List Callback)
    → n < place c
    → IsInOrder (place c) l
    → IsInOrder n (when t c ++ l)
when-IsInOrder true n c l h k = (h, k)
when-IsInOrder false n c l h k = lower-IsInOrder (place c) n l h k

last-IsInOrder : (t : Bool) → IsInOrder 3 (when t on_write)
last-IsInOrder true = (omega arith, tt)
last-IsInOrder false = tt

abbrev four : Bool → Bool → Bool → Bool → List Callback
four p q r s = when p on_close ++ (when q on_error ++ (when r on_read ++ when s on_write))

four-IsInOrder : (p q r s : Bool) → IsInOrder 0 (four p q r s)
four-IsInOrder p q r s =
    when-IsInOrder p 0 on_close (when q on_error ++ (when r on_read ++ when s on_write))
      (omega arith)
      (when-IsInOrder q 1 on_error (when r on_read ++ when s on_write) (omega arith)
        (when-IsInOrder r 2 on_read (when s on_write) (omega arith) (last-IsInOrder s)))

abbrev pick : Callback → Bool → Bool → Bool → Bool → Bool
pick on_close p q r s = p
pick on_error p q r s = q
pick on_read p q r s = r
pick on_write p q r s = s

calls-four : (a : Callback) (p q r s : Bool) → calls a (four p q r s) ≡ pick a p q r s
calls-four on_close p q r s = ground arith
calls-four on_error p q r s = ground arith
calls-four on_read p q r s = ground arith
calls-four on_write p q r s = ground arith

guard_is_due :
    (c : Channel) (a : Callback)
    → IsInOrder 0 (handle_event_with_guard c)
      × (calls a (handle_event_with_guard c) ≡ is_due a c.revents c.callbacks)
unfolding handle_event_with_guard
guard_is_due c on_close = (four-IsInOrder _ _ _ _, calls-four on_close _ _ _ _)
guard_is_due c on_error = (four-IsInOrder _ _ _ _, calls-four on_error _ _ _ _)
guard_is_due c on_read = (four-IsInOrder _ _ _ _, calls-four on_read _ _ _ _)
guard_is_due c on_write = (four-IsInOrder _ _ _ _, calls-four on_write _ _ _ _)

tied_is_due :
    (alive tied : Bool) (c : Channel) (a : Callback)
    → IsInOrder 0 (
        if tied
        then (if alive then handle_event_with_guard c else [])
        else handle_event_with_guard c)
      × (calls a (
            if tied
            then (if alive then handle_event_with_guard c else [])
            else handle_event_with_guard c)
          ≡ ((alive || not tied) && is_due a c.revents c.callbacks))
tied_is_due true true c a = guard_is_due c a
tied_is_due false true c a = (tt, none_called a)
  where
    none_called : (a : Callback) → calls a [] ≡ false
    none_called a = refl
tied_is_due true false c a = guard_is_due c a
tied_is_due false false c a = guard_is_due c a

-- handleEvent calls the callbacks in the order close, error, read, write, each at most once, and
-- exactly those that are set and due, unless the channel is tied to an owner that is gone.
pub handle_event-IsInOrder :
    (alive : Bool) (c : Channel) (a : Callback)
    → IsInOrder 0 (handle_event alive c)
      × (calls a (handle_event alive c) ≡ ((alive || not c.tied) && is_due a c.revents c.callbacks))
unfolding handle_event
handle_event-IsInOrder alive c a = tied_is_due alive c.tied c a

-- enableRead, disableRead and enableWrite change their own test alone, disableAll turns both off,
-- but disableWrite leaves the test for writing and turns that for reading off.
events-cases :
    (c : Channel)
    → ((is_reading (enable_read c) ≡ true) × (is_writing (enable_read c) ≡ is_writing c))
      × ((is_reading (disable_read c) ≡ false) × (is_writing (disable_read c) ≡ is_writing c))
      × ((is_reading (enable_write c) ≡ is_reading c) × (is_writing (enable_write c) ≡ true))
      × ((is_reading (disable_write c) ≡ false) × (is_writing (disable_write c) ≡ is_writing c))
      × ((is_none_event (disable_all c) ≡ true) × (is_writing (disable_all c) ≡ false))
events-cases c = ground arith
