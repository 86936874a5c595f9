-- ===== src/World/Keeps.antt =====
-- What an action keeps of the database, whether it returns or raises.
use fastapi_newyear.Base.{Bool, Option, none, some, inl, inr, ◌≡◌, arith, sym, Option-cases}
use mathlib.Core.Path.{subst}
use fastapi_newyear.Errors.{Exc, Result, ok, err, Result-cases}
use fastapi_newyear.World.{World, Db, Action, ◌>>=◌, pure, gets, lift, or_raise, raise_if}

pub record Keeps {A : Type 0} (P : Db → Type 0) (m : Action A) : Type 0 where
  pub after : (w : World) → P w.db → P (m w).1.db

module _ {A B : Type 0} (m : Action A) (f : A → Action B) where
  bind_ok : (w : World) (a : A) → (m w).0 ≡ ok a → (m >>= f) w ≡ f a (m w).1
  bind_ok w a e = ground arith

  bind_err : (w : World) (x : Exc) → (m w).0 ≡ err x → (m >>= f) w ≡ (err x, (m w).1)
  bind_err w x e = ground arith

module _ {P : Db → Type 0} where
  pub bind :
      {A B : Type 0} {m : Action A} {f : A → Action B}
      → Keeps P m
      → ((a : A) → Keeps P (f a))
      → Keeps P (m >>= f)
  bind {A} {B} {m} {f} hm hf = record {
    after = λ w h. elim (Result-cases (m w).0) [
      | inl (a, e) ↦
          subst (λ (q : Result B × World). P q.1.db) (sym (bind_ok m f w a e))
            ((hf a).after (m w).1 (hm.after w h))
      | inr (x, e) ↦
          subst (λ (q : Result B × World). P q.1.db) (sym (bind_err m f w x e)) (hm.after w h)
    ];
  }

  -- An action that writes nothing to the database.
  pub reads : {A : Type 0} {m : Action A} → ((w : World) → (m w).1.db ≡ w.db) → Keeps P m
  reads same = record { after = λ w h. subst P (sym (same w)) h }

  pub pure_keeps : {A : Type 0} (a : A) → Keeps P (pure a)
  pure_keeps a = record { after = λ w h. h }

  pub gets_keeps : {A : Type 0} (f : World → A) → Keeps P (gets f)
  gets_keeps f = record { after = λ w h. h }

  pub lift_keeps : {A : Type 0} (r : Result A) → Keeps P (lift r)
  lift_keeps r = record { after = λ w h. h }

  pub or_raise_keeps : {A : Type 0} (o : Option A) (e : Exc) → Keeps P (or_raise o e)
  or_raise_keeps o e = record { after = λ w h. h }

  pub raise_if_keeps : (c : Bool) (e : Exc) → Keeps P (raise_if c e)
  raise_if_keeps c e = record { after = λ w h. h }

  -- A write of what a collection answers, if it does not refuse.
  pub stored :
      {A C : Type 0} {m : Action A} (o : World → Option C) (put : C → Db → Db)
      → ((w : World) → o w ≡ none → (m w).1.db ≡ w.db)
      → ((w : World) (c : C) → o w ≡ some c → (m w).1.db ≡ put c w.db)
      → ((w : World) (c : C) → P w.db → o w ≡ some c → P (put c w.db))
      → Keeps P m
  stored o put refused wrote kept = record {
    after = λ w h. elim (Option-cases (o w)) [
      | inl e ↦ subst P (sym (refused w e)) h
      | inr (c, e) ↦ subst P (sym (wrote w c e)) (kept w c h e)
    ];
  }
