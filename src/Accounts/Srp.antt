-- ===== src/Accounts/Srp.antt =====
-- internal/srp/srp.go: the password verifiers of the worldserver. SHA-1 and modular exponentiation
-- are the library's; the bytes of the salt come from its random source.
use Prim.Native.Nat.{bit_or, bit_xor}
use azeroth_core_web.Base.{
  ℕ, zero, suc, ◌+◌, ◌*◌, ◌/◌, ◌%◌, ◌&&◌, ◌||◌, not, Bool, true, false, [], ◌∷◌, ◌++◌, String, Text,
  ◌==◌, ltb, leb, if◌then◌else◌, length, to_upper,
}
use mathlib.Core.List.{reverse}
use azeroth_core_web.Db.{Result, ok, err}
use azeroth_core_web.Accounts.{Crypto}

-- 894B645E89E1535BBDAD5B8B290650530801B18EBFBF5E8FAB3C82872A3E9BB7 in base 16
abbrev pub modulus : ℕ
modulus = 62100066509156017342069496140902949863249758336000796928566441170293728648119

-- `big.Int.SetBytes`: the most significant byte first.
unfoldable pub set_bytes : ℕ → Text → ℕ
set_bytes n [] = n
set_bytes n (b ∷ bs) = set_bytes (n * 256 + b) bs

unfoldable pub little_int : Text → ℕ
unfolding set_bytes
little_int b = set_bytes 0 (reverse b)

-- `littleBytes`: the bytes of a number from the least significant on, cut or padded to a size.
unfoldable pub little_bytes : ℕ → ℕ → Text
little_bytes n zero = []
little_bytes n (suc size) = (n % 256) ∷ little_bytes (n / 256) size

-- `calculate`
unfoldable pub calculate : Crypto → Text → Text → Text → Text
calculate lib username password salt =
    let inner = lib.sha1 (username ++ 58 ∷ password) in
    little_bytes (lib.exp_mod 7 (little_int (lib.sha1 (salt ++ inner))) modulus) 32

-- The loop over the bytes, which all are compared; `diff` gathers the bits that differ.
unfoldable pub diff_loop : ℕ → Text → Text → ℕ
diff_loop diff [] verifier = diff
diff_loop diff (g ∷ got) [] = diff
diff_loop diff (g ∷ got) (v ∷ verifier) = diff_loop (bit_or diff (bit_xor g v)) got verifier

unfoldable pub same_bytes : Text → Text → Bool
same_bytes got verifier =
    if length got == length verifier then diff_loop 0 got verifier == 0 else false

-- `Verify`
unfoldable pub verify : Crypto → Text → Text → Text → Text → Bool
verify lib username password salt verifier =
    same_bytes (calculate lib (to_upper username) (to_upper password) salt) verifier

-- `Registration`, from the salt
unfoldable pub registration : Crypto → Text → Text → Text → Text × Text
registration lib username password salt =
    (salt, calculate lib (to_upper username) (to_upper password) salt)

abbrev pub is_alphanumeric : ℕ → Bool
is_alphanumeric c = (leb 65 c && leb c 90) || (leb 97 c && leb c 122) || (leb 48 c && leb c 57)

abbrev pub is_printable : ℕ → Bool
is_printable c = leb 32 c && leb c 126

unfoldable pub all_bytes : (ℕ → Bool) → Text → Bool
all_bytes p [] = true
all_bytes p (c ∷ s) = if p c then all_bytes p s else false

-- `Validate`
unfoldable pub validate : Text → Text → Result String (Unit {0})
validate username password =
    if ltb (length username) 3 || ltb 32 (length username)
    then err "username must be 3–32 characters"
    else (if ltb (length password) 8 || ltb 32 (length password)
        then err "password must be 8–32 characters"
        else (if not (all_bytes is_alphanumeric username)
            then err "username may only contain Latin letters and numbers"
            else (if not (all_bytes is_printable password)
                then err "password must use printable ASCII characters"
                else ok tt)))
