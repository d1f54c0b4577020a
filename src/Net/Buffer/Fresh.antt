-- ===== src/Net/Buffer/Fresh.antt =====
-- arale/net/Buffer.h: a buffer that the constructor makes of the default size, and what it takes.
use mathlib.Core.Path.{subst}
use arale.Prelude.{
  ℕ, ◌+◌, ◌^◌, ◌≤◌, ◌<◌, ◌≡◌, refl, sym, ap, ◌∙◌, ◌⊎◌, inl, inr, List, [], ◌++◌, ok, arith, length,
  replicate,
}
use arale.Net.Buffer.{Buffer, append, cheap_prepend_size, default_initial_size, new}
use arale.Net.Buffer.Layout.{IsValid, content}
use arale.Net.Buffer.Space.{Fits}
use arale.Net.Buffer.Append.{append-Yields, append_front}

pub fresh : Buffer
fresh = record {
  bytes = replicate (cheap_prepend_size + default_initial_size) 0;
  read_index = cheap_prepend_size;
  write_index = cheap_prepend_size;
}

pub fresh_layout : (length fresh.bytes ≡ 1032) × (fresh.read_index ≡ 8) × (fresh.write_index ≡ 8)
unfolding fresh
fresh_layout = (refl, refl, refl)

pub fresh-IsValid : IsValid fresh
fresh-IsValid = omega (arith, fresh_layout)

pub content-fresh : content fresh ≡ []
unfolding fresh
content-fresh = refl

pub new-fresh : new default_initial_size ≡ ok fresh
unfolding new fresh
new-fresh = refl

-- The lengths that the fresh buffer takes: what is free at once, or what makes the vector grow.
abbrev pub IsSendable : ℕ → Type 0
IsSendable n = (n ≤ 1024) ⊎ ((1032 < n) × (n < 2 ^ 31))

pub Fits-fresh : (n : ℕ) → IsSendable n → Fits n fresh
Fits-fresh n (inl h) = inl (omega (arith, fresh_layout))
Fits-fresh n (inr (h, k)) = inr (inl (omega (arith, fresh_layout), omega (arith, fresh_layout)))

-- A fresh buffer with bytes appended, which leave the room in front.
pub record Filled (d : List ℕ) : Type 0 where
  pub result : Buffer
  pub returns : append d fresh ≡ ok result
  pub valid : IsValid result
  pub holds : content result ≡ d
  pub front : cheap_prepend_size ≤ result.read_index

pub append-Filled : (d : List ℕ) → IsSendable (length d) → Filled d
append-Filled d s =
    let f = Fits-fresh (length d) s in
    let y = append-Yields d fresh fresh-IsValid f in
    let (r, e, l) = append_front d fresh fresh-IsValid f (omega (arith, fresh_layout)) in
    let q : r ≡ y.result = cc (sym e ∙ y.returns) in
    record {
      result = y.result;
      returns = y.returns;
      valid = y.valid;
      holds = y.holds ∙ ap (λ p. p ++ d) content-fresh;
      front = subst (λ p. cheap_prepend_size ≤ p.read_index) q l;
    }
