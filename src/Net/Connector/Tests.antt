-- ===== src/Net/Connector/Tests.antt =====
-- The theorems of the connector at concrete inputs.
use arale.Prelude.{refl, true, false, List, [], ◌∷◌, arith}
use arale.Net.Connector.{
  new_loop, Event, starts, writable, runs_reset, runs_start, under_way, happen,
}
use arale.Net.Connector.Accounts.{IsReady, Accounts, happen-Accounts}

new_loop-IsReady : IsReady new_loop
new_loop-IsReady = record {
  sound = record { waits = λ e. cc; delay_first = omega arith; delay_last = omega arith };
  waits = refl;
}

-- A first attempt that fails, and a second one.
abbrev two_attempts : List Event
two_attempts =
    starts true under_way
    ∷ writable true false
    ∷ runs_reset
    ∷ runs_start under_way
    ∷ writable false false
    ∷ []

happen-Accounts_example : Accounts new_loop (happen two_attempts new_loop)
happen-Accounts_example = happen-Accounts two_attempts new_loop new_loop-IsReady
