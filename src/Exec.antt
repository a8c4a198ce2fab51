-- ===== src/Exec.antt =====
-- Methods that change an object and may raise. What was changed before a raise stays changed, so the
-- state comes back beside the exception too.
pub mod Ensures
use nexus_inventory_platform.Base.{Option, none, some}
use nexus_inventory_platform.Values.{Result, ok, raised}

abbrev pub Exec {ℓ} : Type ℓ → Type ℓ → Type ℓ
Exec S A = S → Result A × S

module _ {ℓ} {S A : Type ℓ} where
  abbrev pub pure : A → Exec S A
  pure a s = (ok a, s)

  abbrev pub lift : Result A → Exec S A
  lift r s = (r, s)

  abbrev pub gets : (S → A) → Exec S A
  gets f s = (ok (f s), s)

module _ {ℓ} {S A B : Type ℓ} where
  abbrev pub proceed : Result A → (A → Exec S B) → Exec S B
  proceed (ok a) f s = f a s
  proceed (raised e) f s = (raised e, s)

  infixl 5 ◌>>=◌
  abbrev pub ◌>>=◌ : Exec S A → (A → Exec S B) → Exec S B
  ◌>>=◌ m f s = proceed (m s).0 f (m s).1

abbrev pub modify {ℓ} : {S : Type ℓ} → (S → S) → S → Result (Unit {0}) × S
modify f s = (ok tt, f s)

-- What a cache holds, or else what a method returns.
abbrev pub cached {ℓ} : {S A : Type ℓ} → Option A → Exec S A → Exec S A
cached none m s = m s
cached (some a) m s = (ok a, s)
