-- ===== src/Exec/Ensures.antt =====
-- A rule for each way to build a method: it keeps an invariant of the object, also when it raises,
-- and what it returns has a property.
use nexus_inventory_platform.Base.{◌≡◌, refl, subst, Option, none, some}
use nexus_inventory_platform.Values.{Result, ok, raised}
use nexus_inventory_platform.Exec.{Exec, pure, lift, modify, proceed, cached, ◌>>=◌}

pub record Ensures {S A : Type 0} (P : S → Type 0) (m : Exec S A) (Q : A → Type 0) : Type 0 where
  pub keeps : (s : S) → P s → P (m s).1
  pub returns : (s : S) → P s → (a : A) → (m s).0 ≡ ok a → Q a

-- `ok` is injective.
pub ok-injective : {A : Type 0} {a b : A} → ok a ≡ ok b → a ≡ b
ok-injective h = cc

module _ {S A : Type 0} {P : S → Type 0} {Q : A → Type 0} where
  pub Ensures-pure : (a : A) → Q a → Ensures P (pure a) Q
  Ensures-pure a q = record { keeps = λ s h. h; returns = λ s h b e. subst Q (ok-injective e) q }

  pub Ensures-lift : (r : Result A) → ((a : A) → r ≡ ok a → Q a) → Ensures P (lift r) Q
  Ensures-lift r q = record { keeps = λ s h. h; returns = λ s h b e. q b e }

module _ {S : Type 0} {P : S → Type 0} where
  pub Ensures-modify :
      (f : S → S) → ((s : S) → P s → P (f s)) → Ensures P (modify f) (λ _. Unit {0})
  Ensures-modify f k = record { keeps = k; returns = λ s h b e. tt }

module _ {S A B : Type 0} {P : S → Type 0} {Q : A → Type 0} {R : B → Type 0} where
  proceed-keeps :
      (r : Result A) (f : A → Exec S B) (s : S)
      → P s
      → ((a : A) → r ≡ ok a → Q a)
      → ((a : A) → Q a → Ensures P (f a) R)
      → P (proceed r f s).1
  proceed-keeps (ok a) f s h q k = (k a (q a refl)).keeps s h
  proceed-keeps (raised e) f s h q k = h

  proceed-returns :
      (r : Result A) (f : A → Exec S B) (s : S)
      → P s
      → ((a : A) → r ≡ ok a → Q a)
      → ((a : A) → Q a → Ensures P (f a) R)
      → (b : B) → (proceed r f s).0 ≡ ok b
      → R b
  proceed-returns (ok a) f s h q k b e = (k a (q a refl)).returns s h b e
  proceed-returns (raised x) f s h q k b e = cc

  pub Ensures-bind :
      (m : Exec S A) (f : A → Exec S B)
      → Ensures P m Q
      → ((a : A) → Q a → Ensures P (f a) R)
      → Ensures P (m >>= f) R
  Ensures-bind m f em ef = record {
    keeps = λ s h. proceed-keeps (m s).0 f (m s).1 (em.keeps s h) (em.returns s h) ef;
    returns = λ s h. proceed-returns (m s).0 f (m s).1 (em.keeps s h) (em.returns s h) ef;
  }

module _ {S A : Type 0} {P : S → Type 0} {Q : A → Type 0} where
  cached-keeps : (o : Option A) (m : Exec S A) (s : S) → Ensures P m Q → P s → P (cached o m s).1
  cached-keeps none m s em h = em.keeps s h
  cached-keeps (some a) m s em h = h

  cached-returns :
      (o : Option A) (m : Exec S A) (s : S)
      → Ensures P m Q
      → P s
      → ((a : A) → o ≡ some a → Q a)
      → (b : A) → (cached o m s).0 ≡ ok b
      → Q b
  cached-returns none m s em h q b e = em.returns s h b e
  cached-returns (some a) m s em h q b e = subst Q (ok-injective e) (q a refl)

  pub Ensures-cached :
      (cache : S → Option A) (m : Exec S A)
      → Ensures P m Q
      → ((s : S) → P s → (a : A) → cache s ≡ some a → Q a)
      → Ensures P (λ s. cached (cache s) m s) Q
  Ensures-cached cache m em q = record {
    keeps = λ s h. cached-keeps (cache s) m s em h;
    returns = λ s h. cached-returns (cache s) m s em h (q s h);
  }

-- From a state, what a method returns and the state it leaves are related, if it returns.
abbrev pub Gives : {S A : Type 0} → Exec S A → S → (A → S → Type 0) → Type 0
Gives {A} m s R = (a : A) → (m s).0 ≡ ok a → R a (m s).1

module _ {S A B : Type 0} (R : B → S → Type 0) where
  proceed-Gives :
      (r : Result A) (f : A → Exec S B) (s : S)
      → ((a : A) → r ≡ ok a → Gives (f a) s R)
      → (b : B) → (proceed r f s).0 ≡ ok b
      → R b (proceed r f s).1
  proceed-Gives (ok a) f s k b h = k a refl b h
  proceed-Gives (raised e) f s k b h = cc

  pub Gives-bind :
      (m : Exec S A) (f : A → Exec S B) (s : S)
      → ((a : A) → (m s).0 ≡ ok a → Gives (f a) (m s).1 R)
      → Gives (m >>= f) s R
  Gives-bind m f s k b h = proceed-Gives (m s).0 f (m s).1 k b h
