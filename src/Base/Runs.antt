-- ===== src/Base/Runs.antt =====
-- Runs that may end in an error: the state after success, or the state when the error occurred.
-- `live` where the error is nil; `failed` carries what was done until the error.
pub data Run {ℓ} (S : Type ℓ) : Type ℓ where
  live failed : S → Run S

infixl 5 ◌>>=◌
abbrev pub ◌>>=◌ {ℓ} : {S : Type ℓ} → Run S → (S → Run S) → Run S
live m >>= f = f m
failed m >>= f = failed m

-- `P` after success, `F` after an error.
abbrev pub Outcome {ℓ κ} : {S : Type ℓ} → (S → Type κ) → (S → Type κ) → Run S → Type κ
Outcome F P (live m) = P m
Outcome F P (failed m) = F m

pub bind_rule {ℓ κ} :
    {S : Type ℓ} (F P Q : S → Type κ) (r : Run S) (f : S → Run S)
    → Outcome F P r
    → ((m : S) → P m → Outcome F Q (f m))
    → Outcome F Q (r >>= f)
bind_rule F P Q (live m) f h k = k m h
bind_rule F P Q (failed m) f h k = h
