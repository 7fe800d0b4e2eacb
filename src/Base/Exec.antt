-- ===== src/Base/Exec.antt =====
-- Calls that change a state and may raise. What was written before a raise stays written, so the
-- state comes back beside the error; `transaction` is the one that takes the writes back.
use mathlib.Core.Path.{◌≡◌, refl}
use mathlib.Core.Bool.{Bool, true, false}
use airgap_sync.Base.{if◌then◌else◌}

pub data Result (E A : Type 0) : Type 0 where
  ok : A → Result E A
  err : E → Result E A

abbrev pub is_ok : {E A : Type 0} → Result E A → Bool
is_ok (ok a) = true
is_ok (err e) = false

pub ok_injective : {E A : Type 0} {a b : A} → Path (Result E A) (ok a) (ok b) → a ≡ b
ok_injective h = cc

abbrev pub Exec : Type 0 → Type 0 → Type 0 → Type 0
Exec S E A = S → Result E A × S

module _ {S E A : Type 0} where
  abbrev pub pure : A → Exec S E A
  pure a s = (ok a, s)

  abbrev pub raise : E → Exec S E A
  raise e s = (err e, s)

  abbrev pub gets : (S → A) → Exec S E A
  gets f s = (ok (f s), s)

module _ {S E A B : Type 0} where
  abbrev pub continue : (A → Exec S E B) → Result E A × S → Result E B × S
  continue f (ok a, s) = f a s
  continue f (err e, s) = (err e, s)

  infixl 10 ◌>>=◌ ◌>>◌
  abbrev pub ◌>>=◌ : Exec S E A → (A → Exec S E B) → Exec S E B
  ◌>>=◌ m f s = continue f (m s)

  abbrev pub ◌>>◌ : Exec S E A → Exec S E B → Exec S E B
  m >> n = m >>= λ _. n

module _ {S E : Type 0} where
  abbrev pub modify : (S → S) → Exec S E Unit
  modify f s = (ok tt, f s)

  abbrev pub raise_if : Bool → E → Exec S E Unit
  raise_if b e s = (if b then err e else ok tt, s)

module _ {S E A : Type 0} where
  abbrev pub commit_or_restore : S → Result E A × S → Result E A × S
  commit_or_restore s (ok a, s') = (ok a, s')
  commit_or_restore s (err e, s') = (err e, s)

  -- BEGIN IMMEDIATE, the body, and COMMIT or, when the body raises, ROLLBACK.
  abbrev pub transaction : Exec S E A → Exec S E A
  transaction m s = commit_or_restore s (m s)

  -- A transaction that raises has changed nothing.
  pub transaction_atomic :
      (m : Exec S E A) (s : S) (e : E) → (transaction m s).0 ≡ err e → (transaction m s).1 ≡ s
  transaction_atomic m s e h = go (m s) h
    where
      go : (r : Result E A × S) → (commit_or_restore s r).0 ≡ err e → (commit_or_restore s r).1 ≡ s
      go (ok a, s') h = cc
      go (err x, s') h = refl

  -- What holds before a transaction and after its body holds after the transaction.
  pub commit_or_restore-keeps :
      (P : S → Type 0) (s : S) (r : Result E A × S) → P s → P r.1 → P (commit_or_restore s r).1
  commit_or_restore-keeps P s (ok a, s') before after = after
  commit_or_restore-keeps P s (err e, s') before after = before

-- `m` keeps `P`, whether it returns or raises.
abbrev pub Keeps : {S E A : Type 0} → (S → Type 0) → Exec S E A → Type 0
Keeps {S} P m = (s : S) → P s → P (m s).1

module _ {S E A B : Type 0} where
  -- A sequence whose first part returns.
  pub bind_ok :
      (m : Exec S E A) (f : A → Exec S E B) (s : S) (a : A)
      → (m s).0 ≡ ok a
      → (m >>= f) s ≡ f a (m s).1
  bind_ok m f s a h = go (m s) h
    where
      go : (r : Result E A × S) → r.0 ≡ ok a → continue f r ≡ f a r.1
      go (r, s') h' = rw h'

  -- What the first part leaves, and the rest makes of it.
  pub bind_post :
      (P Q : S → Type 0) (m : Exec S E A) (f : A → Exec S E B) (s : S)
      → P (m s).1
      → ((s' : S) → P s' → Q s')
      → ((a : A) (s' : S) → P s' → Q (f a s').1)
      → Q ((m >>= f) s).1
  bind_post P Q m f s h stop more = go (m s) h
    where
      go : (r : Result E A × S) → P r.1 → Q (continue f r).1
      go (ok a, s') h' = more a s' h'
      go (err e, s') h' = stop s' h'

  -- The rule for a sequence: the rest is looked at only where the first part returns.
  pub Keeps-bind :
      (P : S → Type 0) (m : Exec S E A) (f : A → Exec S E B)
      → Keeps P m
      → ((a : A) → Keeps P (f a))
      → Keeps P (m >>= f)
  Keeps-bind P m f km kf s h = go (m s) (km s h)
    where
      go : (r : Result E A × S) → P r.1 → P (continue f r).1
      go (ok a, s') h' = kf a s' h'
      go (err e, s') h' = h'

  -- A sequence that returns: its first part returned, and the rest went on from there.
  pub bind_inv :
      (m : Exec S E A) (f : A → Exec S E B) (s : S) (b : B)
      → ((m >>= f) s).0 ≡ ok b
      → (a : A) × ((m s).0 ≡ ok a) × ((m >>= f) s ≡ f a (m s).1)
  bind_inv m f s b h = go (m s) h
    where
      go :
          (r : Result E A × S)
          → (continue f r).0 ≡ ok b
          → (a : A) × (r.0 ≡ ok a) × (continue f r ≡ f a r.1)
      go (ok a, s') h' = (a, refl, refl)
      go (err e, s') h' = cc
