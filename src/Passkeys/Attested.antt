-- ===== src/Passkeys/Attested.antt =====
-- internal/web/passkeys.go, `parseNoneAttestation`: the layout of what it accepts.
use Prim.Native.Nat.{bit_and}
use azeroth_core_web.Base.{
  ℕ, ◌+◌, ◌≤◌, ◌≡◌, refl, sym, ap, ◌∙◌, Bool, true, Option, none, some, ◌++◌, Text, codes, text_eq,
  text_eq→eq, ◌==◌, ==→eq, ltb, leb, not, ◌||◌, arith, length, drop, length-drop, Bool-cases, inl,
  inr, if◌then◌else◌,
}
use azeroth_core_web.Base.Int.{pos, negsuc}
use azeroth_core_web.Db.{Result, ok, err}
use azeroth_core_web.Cbor.{Value, Pairs, CborError, big_endian, decode_cbor}
use azeroth_core_web.Passkeys.{
  PasskeyError, PasskeyCredential, item_at, is_int, is_text, bytes_of, slice, coordinates,
  es256_key, credential_of, parse_auth_data, auth_data_of, attested, parse_none_attestation,
}
use azeroth_core_web.Passkeys.Entries.{
  is_int-eq, is_text-eq, bytes_of-eq, passed, neither, not-false,
}
use azeroth_core_web.Passkeys.Slices.{length-slice, slices}

module _ (rp_hash : Text) (is_on_curve : Text → Text → Bool) where
  -- An ES256 key in COSE form with the coordinates x and y of a point of the curve.
  pub record IsKey (x y bytes : Text) : Type 0 where
    key : Pairs
    position : ℕ
    decoded : decode_cbor bytes ≡ ok (Value.table key, position)
    elliptic : item_at (Value.int (pos 1)) key ≡ some (Value.int (pos 2))
    es256 : item_at (Value.int (pos 3)) key ≡ some (Value.int (negsuc 6))
    p256 : item_at (Value.int (negsuc 0)) key ≡ some (Value.int (pos 1))
    at_x : item_at (Value.int (negsuc 1)) key ≡ some (Value.bytes x)
    at_y : item_at (Value.int (negsuc 2)) key ≡ some (Value.bytes y)
    long_x : length x ≡ 32
    long_y : length y ≡ 32
    on_curve : is_on_curve x y ≡ true

  -- What the authenticator data tells of a credential: the hash of the relying party, the flags, the
  -- counter, the authenticator's number, the size of the credential's name, the name and the key.
  pub record IsAuthData (c : PasskeyCredential) (auth : Text) : Type 0 where
    flags : Text
    count : Text
    aaguid : Text
    size : Text
    key : Text
    layout : auth ≡ rp_hash ++ (flags ++ (count ++ (aaguid ++ (size ++ (c.id ++ key)))))
    sizes :
        (length flags ≡ 1)
        × (length count ≡ 4)
        × (length aaguid ≡ 16)
        × (length size ≡ 2)
        × (1 ≤ length key)
    present_and_verified : bit_and (big_endian 0 flags) 69 ≡ 69
    counted : c.sign_count ≡ big_endian 0 count
    named : length c.id ≡ big_endian 0 size
    bounded : (16 ≤ length c.id) × (length c.id ≤ 1024)
    keyed : IsKey c.x c.y key

  -- An attestation object of the format `none` with the authenticator data of a credential.
  pub record IsAttested (c : PasskeyCredential) (bytes : Text) : Type 0 where
    object : Pairs
    position : ℕ
    auth : Text
    decoded : decode_cbor bytes ≡ ok (Value.table object, position)
    format : item_at (Value.text (codes "fmt")) object ≡ some (Value.text (codes "none"))
    at_auth : item_at (Value.text (codes "authData")) object ≡ some (Value.bytes auth)
    auth_data : IsAuthData c auth

  coordinates-lem :
      (o p : Option Text) (x y : Text)
      → coordinates rp_hash is_on_curve o p ≡ ok (x, y)
      → (o ≡ some x) × (p ≡ some y) × (length x ≡ 32) × (length y ≡ 32) × (is_on_curve x y ≡ true)
  unfolding coordinates
  coordinates-lem none p x y h = cc
  coordinates-lem (some a) none x y h = cc
  coordinates-lem (some a) (some b) x y h =
      let bad_x = not (length a == 32) in
      let bad_y = not (length b == 32) in
      let bad = not (is_on_curve a b) in
      let h1 = passed (bad_x || bad_y || bad) PasskeyError.invalid_es256_key (ok (a, b)) (x, y) h in
      let h2 = neither (bad_x || bad_y) bad h1.0 in
      let h3 = neither bad_x bad_y h2.0 in
      let same_x : a ≡ x = cc h1.1 in
      let same_y : b ≡ y = cc h1.1 in
      let long_x = ==→eq (length a) 32 (not-false (length a == 32) h3.0) in
      let long_y = ==→eq (length b) 32 (not-false (length b == 32) h3.1) in
      let curved = not-false (is_on_curve a b) h2.1 in
      (
        ap some same_x,
        ap some same_y,
        rw same_x at long_x,
        rw same_y at long_y,
        rw (same_x, same_y) at curved,
      )

  es256_key-cases :
      (bytes x y : Text) (r : Result CborError (Value × ℕ))
      → decode_cbor bytes ≡ r
      → es256_key rp_hash is_on_curve r ≡ ok (x, y)
      → IsKey x y bytes
  unfolding es256_key
  es256_key-cases bytes x y (err e) same h = cc
  es256_key-cases bytes x y (ok (Value.table key, n)) same h =
      let curve = not (is_int (pos 2) (item_at (Value.int (pos 1)) key)) in
      let alg = not (is_int (negsuc 6) (item_at (Value.int (pos 3)) key)) in
      let crv = not (is_int (pos 1) (item_at (Value.int (negsuc 0)) key)) in
      let at_x = item_at (Value.int (negsuc 1)) key in
      let at_y = item_at (Value.int (negsuc 2)) key in
      let h1 =
        passed (curve || alg || crv) PasskeyError.only_es256
          (coordinates rp_hash is_on_curve (bytes_of at_x) (bytes_of at_y)) (x, y) h in
      let h2 = neither (curve || alg) crv h1.0 in
      let h3 = neither curve alg h2.0 in
      let h4 = coordinates-lem (bytes_of at_x) (bytes_of at_y) x y h1.1 in
      record {
        key = key;
        position = n;
        decoded = same;
        elliptic = is_int-eq (pos 2) (item_at (Value.int (pos 1)) key) (not-false _ h3.0);
        es256 = is_int-eq (negsuc 6) (item_at (Value.int (pos 3)) key) (not-false _ h3.1);
        p256 = is_int-eq (pos 1) (item_at (Value.int (negsuc 0)) key) (not-false _ h2.1);
        at_x = bytes_of-eq x at_x h4.0;
        at_y = bytes_of-eq y at_y h4.1;
        long_x = h4.2;
        long_y = h4.3;
        on_curve = h4.4;
      }
  es256_key-cases bytes x y (ok (Value.text s, n)) same h = cc
  es256_key-cases bytes x y (ok (Value.bytes s, n)) same h = cc
  es256_key-cases bytes x y (ok (Value.int z, n)) same h = cc
  es256_key-cases bytes x y (ok (Value.array vs, n)) same h = cc
  es256_key-cases bytes x y (ok (Value.bool b, n)) same h = cc
  es256_key-cases bytes x y (ok (Value.null, n)) same h = cc

  es256_key-IsKey :
      (bytes x y : Text)
      → es256_key rp_hash is_on_curve (decode_cbor bytes) ≡ ok (x, y)
      → IsKey x y bytes
  es256_key-IsKey bytes x y = es256_key-cases bytes x y (decode_cbor bytes) refl

  credential_of-lem :
      (id : Text) (count : ℕ) (r : Result PasskeyError (Text × Text)) (c : PasskeyCredential)
      → credential_of rp_hash is_on_curve id count r ≡ ok c
      → (id ≡ c.id) × (count ≡ c.sign_count) × (r ≡ ok (c.x, c.y))
  unfolding credential_of
  credential_of-lem id count (err e) c h = cc
  credential_of-lem id count (ok (x, y)) c h =
      let same : record { id = id; x = x; y = y; sign_count = count } ≡ c = cc h in
      (ap (λ c. c.id) same, ap (λ c. c.sign_count) same, ap (λ c. ok (c.x, c.y)) same)

  parse_auth_data-IsAuthData :
      (auth : Text) (c : PasskeyCredential)
      → parse_auth_data rp_hash is_on_curve auth ≡ ok c
      → IsAuthData c auth
  unfolding parse_auth_data
  parse_auth_data-IsAuthData auth c h =
      let size = big_endian 0 (slice 53 55 auth) in
      let flags = big_endian 0 (slice 32 33 auth) in
      let key = es256_key rp_hash is_on_curve (decode_cbor (drop (55 + size) auth)) in
      let named =
        credential_of rp_hash is_on_curve (slice 55 (55 + size) auth)
          (big_endian 0 (slice 33 37 auth)) key in
      let short = ltb (length auth) 55 in
      let other = not (text_eq (slice 0 32 auth) rp_hash) in
      let unflagged = not (bit_and flags 69 == 69) in
      let low = ltb size 16 in
      let high = ltb 1024 size in
      let cut = leb (length auth) (55 + size) in
      let h1 =
        passed (short || other || unflagged) PasskeyError.invalid_authenticator_data
          (if low || high || cut then err PasskeyError.invalid_credential_id else named) c h in
      let h2 = neither (short || other) unflagged h1.0 in
      let h3 = neither short other h2.0 in
      let h4 = passed (low || high || cut) PasskeyError.invalid_credential_id named c h1.1 in
      let h5 = neither (low || high) cut h4.0 in
      let h6 = neither low high h5.0 in
      let h7 =
        credential_of-lem (slice 55 (55 + size) auth) (big_endian 0 (slice 33 37 auth)) key c
          h4.1 in
      let enough : 55 + size + 1 ≤ length auth = ground (arith, h5.1) in
      let same_hash = text_eq→eq (slice 0 32 auth) rp_hash (not-false _ h3.1) in
      let cuts = slices size auth in
      let long_id : length c.id ≡ size =
        sym (ap length h7.0)
        ∙ (length-slice 55 (55 + size) auth (omega (arith, enough)) ∙ omega arith) in
      record {
        flags = slice 32 33 auth;
        count = slice 33 37 auth;
        aaguid = slice 37 53 auth;
        size = slice 53 55 auth;
        key = drop (55 + size) auth;
        layout = rw (same_hash, h7.0) at cuts;
        sizes = (
          omega (arith, enough, length-slice 32 33 auth),
          omega (arith, enough, length-slice 33 37 auth),
          omega (arith, enough, length-slice 37 53 auth),
          omega (arith, enough, length-slice 53 55 auth),
          omega (arith, enough, length-drop (55 + size) auth),
        );
        present_and_verified = ==→eq (bit_and flags 69) 69 (not-false _ h2.1);
        counted = sym h7.1;
        named = long_id;
        bounded = ground (arith, long_id, h6.0, h6.1);
        keyed = es256_key-IsKey (drop (55 + size) auth) c.x c.y h7.2;
      }

  auth_data_of-IsAuthData :
      (o : Option Text) (c : PasskeyCredential)
      → auth_data_of rp_hash is_on_curve o ≡ ok c
      → (auth : Text) × (o ≡ some auth) × IsAuthData c auth
  unfolding auth_data_of
  auth_data_of-IsAuthData none c h = cc
  auth_data_of-IsAuthData (some auth) c h = (auth, refl, parse_auth_data-IsAuthData auth c h)

  attested-cases :
      (bytes : Text) (r : Result CborError (Value × ℕ)) (c : PasskeyCredential)
      → decode_cbor bytes ≡ r
      → attested rp_hash is_on_curve r ≡ ok c
      → IsAttested c bytes
  unfolding attested
  attested-cases bytes (err e) c same h = cc
  attested-cases bytes (ok (Value.table object, n)) c same h =
      let format = item_at (Value.text (codes "fmt")) object in
      let at_auth = item_at (Value.text (codes "authData")) object in
      elim (Bool-cases (is_text (codes "none") format)) [
        | inr other ↦ cc (h, other)
        | inl fits ↦
            let read = auth_data_of-IsAuthData (bytes_of at_auth) c (rw fits at h) in
            record {
              object = object;
              position = n;
              auth = read.0;
              decoded = same;
              format = is_text-eq (codes "none") format fits;
              at_auth = bytes_of-eq read.0 at_auth read.1;
              auth_data = read.2;
            }
      ]
  attested-cases bytes (ok (Value.text s, n)) c same h = cc
  attested-cases bytes (ok (Value.bytes s, n)) c same h = cc
  attested-cases bytes (ok (Value.int z, n)) c same h = cc
  attested-cases bytes (ok (Value.array vs, n)) c same h = cc
  attested-cases bytes (ok (Value.bool b, n)) c same h = cc
  attested-cases bytes (ok (Value.null, n)) c same h = cc

  -- A credential that parseNoneAttestation takes from some bytes is attested in them: they decode to a
  -- table of the format `none`, whose authenticator data is the hash of the relying party, one byte of
  -- flags with the user present and verified and data attested, the four bytes of the counter, sixteen
  -- bytes, two bytes with the length of the credential's name, that name, which has 16 to 1024 bytes,
  -- and an ES256 key whose coordinates have 32 bytes each and lie on the curve.
  pub parse_none_attestation-IsAttested :
      (bytes : Text) (c : PasskeyCredential)
      → parse_none_attestation rp_hash is_on_curve bytes ≡ ok c
      → IsAttested c bytes
  unfolding parse_none_attestation
  parse_none_attestation-IsAttested bytes c = attested-cases bytes (decode_cbor bytes) c refl
