-- ===== src/Passkeys/Entries.antt =====
-- internal/web/passkeys.go, `parseNoneAttestation`: what its tests of an item_at and its early returns
-- leave behind them.
use azeroth_core_web.Base.{
  ◌≡◌, refl, ap, Bool, true, false, Option, none, some, Text, text_eq→eq, ==→eq, not, ◌||◌,
  if◌then◌else◌,
}
use azeroth_core_web.Base.Int.{ℤ, pos, negsuc}
use azeroth_core_web.Db.{Result, ok, err}
use azeroth_core_web.Cbor.{Value, same_key}
use azeroth_core_web.Passkeys.{is_int, is_text, bytes_of}

pub is_int-eq : (n : ℤ) (o : Option Value) → is_int n o ≡ true → o ≡ some (Value.int n)
unfolding is_int same_key
is_int-eq n none h = cc
is_int-eq (pos n) (some (Value.int (pos m))) h = ap (λ k. some (Value.int (pos k))) (==→eq m n h)
is_int-eq (pos n) (some (Value.int (negsuc m))) h = cc
is_int-eq (negsuc n) (some (Value.int (pos m))) h = cc
is_int-eq (negsuc n) (some (Value.int (negsuc m))) h =
    ap (λ k. some (Value.int (negsuc k))) (==→eq m n h)
is_int-eq n (some (Value.bytes s)) h = cc
is_int-eq n (some (Value.text s)) h = cc
is_int-eq n (some (Value.array vs)) h = cc
is_int-eq n (some (Value.table ps)) h = cc
is_int-eq n (some (Value.bool b)) h = cc
is_int-eq n (some Value.null) h = cc

pub is_text-eq : (t : Text) (o : Option Value) → is_text t o ≡ true → o ≡ some (Value.text t)
unfolding is_text
is_text-eq t none h = cc
is_text-eq t (some (Value.text s)) h = ap (λ k. some (Value.text k)) (text_eq→eq s t h)
is_text-eq t (some (Value.int z)) h = cc
is_text-eq t (some (Value.bytes s)) h = cc
is_text-eq t (some (Value.array vs)) h = cc
is_text-eq t (some (Value.table ps)) h = cc
is_text-eq t (some (Value.bool b)) h = cc
is_text-eq t (some Value.null) h = cc

pub bytes_of-eq : (s : Text) (o : Option Value) → bytes_of o ≡ some s → o ≡ some (Value.bytes s)
unfolding bytes_of
bytes_of-eq s none h = cc
bytes_of-eq s (some (Value.bytes u)) h = cc
bytes_of-eq s (some (Value.text u)) h = cc
bytes_of-eq s (some (Value.int z)) h = cc
bytes_of-eq s (some (Value.array vs)) h = cc
bytes_of-eq s (some (Value.table ps)) h = cc
bytes_of-eq s (some (Value.bool b)) h = cc
bytes_of-eq s (some Value.null) h = cc

-- What is past a test that refuses.
pub passed :
    {E A : Type 0} (b : Bool) (e : E) (r : Result E A) (v : A)
    → (if b then err e else r) ≡ ok v
    → (b ≡ false) × (r ≡ ok v)
passed true e r v h = cc
passed false e r v h = (refl, h)

pub neither : (b c : Bool) → (b || c) ≡ false → (b ≡ false) × (c ≡ false)
neither true c h = cc
neither false c h = (refl, h)

pub not-false : (b : Bool) → not b ≡ false → b ≡ true
not-false true h = refl
not-false false h = cc
