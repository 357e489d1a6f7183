-- ===== src/Passkeys/Slices.antt =====
-- internal/web/passkeys.go, `parseNoneAttestation`: the authenticator data cut at the positions that
-- it reads.
use azeroth_core_web.Base.{
  ℕ, zero, suc, ◌+◌, ◌-◌, ◌≤◌, ◌≡◌, refl, sym, ap, ◌∙◌, [], ◌∷◌, ◌++◌, Text, arith, length, drop,
  take-append-drop, length-take, length-drop,
}
use azeroth_core_web.Passkeys.{slice}

drop-drop : (m n k : ℕ) (s : Text) → m + n ≡ k → drop n (drop m s) ≡ drop k s
drop-drop zero n k s e = ap (λ j. drop j s) (omega (arith, e))
drop-drop (suc m) n zero s e = let no : ⊥ = omega (arith, e) in elim no [ ]
drop-drop (suc m) zero (suc k) [] e = refl
drop-drop (suc m) (suc n) (suc k) [] e = refl
drop-drop (suc m) n (suc k) (c ∷ s) e = drop-drop m n k s (omega (arith, e))

-- A cut of the data at a later position.
drop-slice :
    (start end : ℕ) (s : Text) → start ≤ end → drop start s ≡ slice start end s ++ drop end s
unfolding slice
drop-slice start end s h =
    sym (take-append-drop (end - start) (drop start s))
    ∙ ap (λ t. slice start end s ++ t) (drop-drop start (end - start) end s (omega (arith, h)))

pub length-slice :
    (start end : ℕ) (s : Text) → end ≤ length s → length (slice start end s) ≡ end - start
unfolding slice
length-slice start end s h =
    omega (arith, h, length-take (end - start) (drop start s), length-drop start s)

-- The data cut at the positions that the source reads.
pub slices :
    (size : ℕ) (auth : Text)
    → auth
      ≡ slice 0 32 auth
        ++ (slice 32 33 auth
            ++ (slice 33 37 auth
                ++ (slice 37 53 auth
                    ++ (slice 53 55 auth ++ (slice 55 (55 + size) auth ++ drop (55 + size) auth)))))
slices size auth =
    drop-slice 0 32 auth (omega arith)
    ∙ ap (λ t. slice 0 32 auth ++ t)
        (drop-slice 32 33 auth (omega arith)
          ∙ ap (λ t. slice 32 33 auth ++ t)
              (drop-slice 33 37 auth (omega arith)
                ∙ ap (λ t. slice 33 37 auth ++ t)
                    (drop-slice 37 53 auth (omega arith)
                      ∙ ap (λ t. slice 37 53 auth ++ t)
                          (drop-slice 53 55 auth (omega arith)
                            ∙ ap (λ t. slice 53 55 auth ++ t)
                                (drop-slice 55 (55 + size) auth (omega arith))))))
