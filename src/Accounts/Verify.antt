-- ===== src/Accounts/Verify.antt =====
-- internal/srp/srp.go: which verifier is accepted, and the bytes of a number round trip.
use Prim.Native.Nat.{bit_or, bit_xor}
use native.Mathlib.Numerals.{unary_clauses}
use azeroth_core_web.Base.{
  ℕ, zero, suc, ◌+◌, ◌*◌, ◌/◌, ◌%◌, ◌^◌, ◌<◌, ◌≡◌, ◌↔◌, refl, sym, ap, true, [], ◌∷◌, ◌++◌, Text,
  to_upper, ◌==◌, length, arith, Bool-cases, inl, inr, ==→eq,
}
use azeroth_core_web.Base.Bits.{bit_xor_eq, bit_xor_same, bit_or_zero, bit_or_zeros}
use mathlib.Core.List.{reverse, reverse-cons}
use azeroth_core_web.Accounts.{Crypto}
use azeroth_core_web.Accounts.Srp.{
  set_bytes, little_int, little_bytes, diff_loop, same_bytes, verify, registration,
}

diff_loop_same : (s : Text) → diff_loop 0 s s ≡ 0
unfolding diff_loop
diff_loop_same [] = refl
diff_loop_same (c ∷ s) = rw (bit_xor_same c, bit_or_zeros) (diff_loop_same s)

diff_loop_zero :
    (diff : ℕ) (s t : Text) → length s ≡ length t → diff_loop diff s t ≡ 0 → (diff ≡ 0) × (s ≡ t)
unfolding diff_loop
diff_loop_zero diff [] [] size h = (h, refl)
diff_loop_zero diff [] (c ∷ t) size h = absurd (omega (arith, size))
diff_loop_zero diff (c ∷ s) [] size h = absurd (omega (arith, size))
diff_loop_zero diff (c ∷ s) (d ∷ t) size h =
    let (gathered, rest) = diff_loop_zero (bit_or diff (bit_xor c d)) s t (omega (arith, size)) h in
    let (before, same) = bit_or_zero diff (bit_xor c d) gathered in
    let head : c ≡ d = bit_xor_eq c d same in (before, rw (head, rest) refl)

same_bytes_eq : (s t : Text) → same_bytes s t ≡ true → s ≡ t
unfolding same_bytes
same_bytes_eq s t h = elim (Bool-cases (length s == length t)) [
  | inl size ↦
      let zero_diff : diff_loop 0 s t ≡ 0 = ground (arith, h, size) in
      (diff_loop_zero 0 s t (==→eq _ _ size) zero_diff).1
  | inr other ↦ absurd (ground (arith, h, other))
]

same_bytes_refl : (s : Text) → same_bytes s s ≡ true
unfolding same_bytes
same_bytes_refl s = ground (arith, diff_loop_same s)

-- For a name and a password that agree in upper case with those of a registration, `Verify` accepts a
-- verifier exactly if it is the one that the registration gives with the same salt.
pub verify_exact :
    (lib : Crypto) (username password name secret salt verifier : Text)
    → to_upper name ≡ to_upper username
    → to_upper secret ≡ to_upper password
    → ((verify lib name secret salt verifier ≡ true)
        ↔ (registration lib username password salt ≡ (salt, verifier)))
unfolding verify registration
verify_exact lib username password name secret salt verifier same_name same_secret =
    rw (same_name, same_secret)
      (
        λ h. ap (λ (t : Text). (salt, t)) (same_bytes_eq _ _ h),
        λ h. rw (sym (ap (λ (p : Text × Text). p.1) h)) (same_bytes_refl _),
      )

set_bytes-append : (n : ℕ) (s : Text) (b : ℕ) → set_bytes n (s ++ b ∷ []) ≡ set_bytes n s * 256 + b
unfolding set_bytes
set_bytes-append n [] b = refl
set_bytes-append n (c ∷ s) b = set_bytes-append (n * 256 + c) s b

little_int-cons : (b : ℕ) (s : Text) → little_int (b ∷ s) ≡ little_int s * 256 + b
unfolding little_int
little_int-cons b s = rw (reverse-cons b s) (set_bytes-append 0 (reverse s) b)

quotient_below : (k n : ℕ) → n < k * 256 → n / 256 < k
quotient_below k n h = omega (arith, h)

-- A number below 256^size is read back from its bytes, least significant first: the verifiers, which are
-- below 256^32, are stored without loss.
pub little_int-little_bytes : (size n : ℕ) → n < 256 ^ size → little_int (little_bytes n size) ≡ n
unfolding little_bytes little_int set_bytes
little_int-little_bytes zero n h = omega (arith, h)
little_int-little_bytes (suc size) n h =
    let small : n / 256 < 256 ^ size = quotient_below (256 ^ size) n (simp unary_clauses at h) in
    rw
      (
        little_int-cons (n % 256) (little_bytes (n / 256) size),
        little_int-little_bytes size (n / 256) small,
      )
      (omega arith)
