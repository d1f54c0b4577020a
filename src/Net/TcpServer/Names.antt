-- ===== src/Net/TcpServer/Names.antt =====
-- TcpServer.cc: different numbers make different names.
use arale.Prelude.{
  ℕ, zero, suc, ◌+◌, ◌-◌, ◌*◌, ◌/◌, ◌%◌, ◌≡◌, ◌≢◌, ◌≤◌, ◌<◌, refl, sym, ap, ◌∙◌, false, [], ◌∷◌,
  ◌++◌, ltb, length, length-append, take_all, arith, Bool-cases, inl, inr,
}
use arale.Net.Http.Text.{Bytes, digits, decimal, same_bytes, same_bytes-eq}
use arale.Net.TcpServer.{Server, conn_name}

-- The number that digits stand for.
abbrev read_from : ℕ → Bytes → ℕ
read_from n [] = n
read_from n (c ∷ cs) = read_from (n * 10 + (c - 48)) cs

read_from-append :
    (n : ℕ) (cs : Bytes) (c : ℕ) → read_from n (cs ++ c ∷ []) ≡ read_from n cs * 10 + (c - 48)
read_from-append n [] c = refl
read_from-append n (d ∷ cs) c = read_from-append (n * 10 + (d - 48)) cs c

abbrev pub ten_to : ℕ → ℕ
ten_to zero = 1
ten_to (suc k) = 10 * ten_to k

read_from-digits : (fuel n : ℕ) → n < ten_to fuel → read_from 0 (digits fuel n) ≡ n
unfolding digits
read_from-digits zero n h = omega arith
read_from-digits (suc fuel) n h = elim (Bool-cases (ltb n 10)) [
  | inl t ↦ rw t (omega arith)
  | inr t ↦
      let i = read_from-digits fuel (n / 10) (omega arith) in
      let l : 10 ≤ n = ground arith in
      rw t (read_from-append 0 (digits fuel (n / 10)) (48 + n % 10) ∙ rw i (omega arith))
]

pub length-digits : (fuel n : ℕ) → length (digits fuel n) ≤ fuel
unfolding digits
length-digits zero n = omega arith
length-digits (suc fuel) n = elim (Bool-cases (ltb n 10)) [
  | inl t ↦ rw t (omega arith)
  | inr t ↦
      let i = length-digits fuel (n / 10) in
      rw t (omega (arith, length-append (digits fuel (n / 10)) ((48 + n % 10) ∷ [])))
]

append_inj : (xs ys zs : Bytes) → xs ++ ys ≡ xs ++ zs → ys ≡ zs
append_inj [] ys zs e = e
append_inj (x ∷ xs) ys zs e = append_inj xs ys zs (cc e)

-- The address fits the buffer with the number.
abbrev pub IsShort : Server → Type 0
IsShort s = length s.ip_port ≤ 41

conn_name-whole :
    (s : Server) (id : ℕ)
    → IsShort s
    → conn_name s id ≡ s.name ++ (b'-' ∷ (s.ip_port ++ b'#' ∷ decimal id))
unfolding conn_name
conn_name-whole s id h =
    let n = length-append s.ip_port (b'#' ∷ decimal id) in
    let d = length-digits 20 id in
    ap (λ l. s.name ++ l) (take_all 63 (b'-' ∷ (s.ip_port ++ b'#' ∷ decimal id)) (omega arith))

pub conn_name_inj :
    (s : Server) (i j : ℕ)
    → IsShort s
    → i < ten_to 20
    → j < ten_to 20
    → conn_name s i ≡ conn_name s j
    → i ≡ j
conn_name_inj s i j h k l e =
    let a = append_inj s.name _ _ (sym (conn_name-whole s i h) ∙ e ∙ conn_name-whole s j h) in
    let b : s.ip_port ++ b'#' ∷ decimal i ≡ s.ip_port ++ b'#' ∷ decimal j = cc a in
    let c = append_inj s.ip_port (b'#' ∷ decimal i) (b'#' ∷ decimal j) b in
    let d : decimal i ≡ decimal j = cc c in
    sym (read_from-digits 20 i k) ∙ ap (read_from 0) d ∙ read_from-digits 20 j l

pub same_bytes-conn_name :
    (s : Server) (i j : ℕ)
    → IsShort s
    → i < ten_to 20
    → j < ten_to 20
    → i ≢ j
    → same_bytes (conn_name s i) (conn_name s j) ≡ false
same_bytes-conn_name s i j h k l n =
    elim (Bool-cases (same_bytes (conn_name s i) (conn_name s j))) [
      | inr t ↦ t
      | inl t ↦
          absurd (n (conn_name_inj s i j h k l (same_bytes-eq (conn_name s i) (conn_name s j) t)))
    ]
