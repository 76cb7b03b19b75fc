-- ===== src/Auth/Store/Keeps.antt =====
-- What the methods of the store keep, whichever call of the driver fails: a rule for each way to
-- build a method.
use zenmind_official_server.Base.{Bool, true, false, Option, none, some, if◌then◌else◌}
use zenmind_official_server.Auth.Store.Defs.{Db}
use zenmind_official_server.Auth.Store.Monad.{
  M, Error, World, ok, err, Result, pure, raise, gets, modify, time_now, attempt, required, on_row,
  ignore, or_not_found, continue, roll_back, transaction, ◌>>=◌,
}

-- Whether `m` returns or fails, it keeps `P` of the tables.
pub record Keeps {A : Type 0} (P : Db → Type 0) (m : M A) : Type 0 where
  pub at : (w : World) → P w.db → P (m w).1.db

module _ (P : Db → Type 0) where
  Keeps-continue :
      {A B : Type 0} (r : Result A) (f : A → M B)
      → ((a : A) → Keeps P (f a))
      → (w : World) → P w.db
      → P (continue r f w).1.db
  Keeps-continue (ok a) f k w h = (k a).at w h
  Keeps-continue (err e) f k w h = h

  pub Keeps-bind :
      {A B : Type 0} (m : M A) (f : A → M B)
      → Keeps P m
      → ((a : A) → Keeps P (f a))
      → Keeps P (m >>= f)
  unfolding ◌>>=◌
  Keeps-bind m f km kf = record {
    at = λ w h. let (r, w') = m w in Keeps-continue r f kf w' (km.at w h);
  }

  pub Keeps-pure : {A : Type 0} (a : A) → Keeps P (pure a)
  Keeps-pure a = record { at = λ w h. h }

  pub Keeps-raise : {A : Type 0} (e : Error) → Keeps {A = A} P (raise e)
  Keeps-raise e = record { at = λ w h. h }

  pub Keeps-gets : {A : Type 0} (f : Db → A) → Keeps P (gets f)
  Keeps-gets f = record { at = λ w h. h }

  pub Keeps-time_now : Keeps P time_now
  Keeps-time_now = record { at = λ w h. h }

  pub Keeps-attempt : Keeps P attempt
  unfolding attempt
  Keeps-attempt = record { at = λ w h. h }

  pub Keeps-modify : (f : Db → Db) → ((db : Db) → P db → P (f db)) → Keeps P (modify f)
  Keeps-modify f k = record { at = λ w h. k w.db h }

  pub Keeps-required : {A : Type 0} (o : Option A) → Keeps P (required o)
  Keeps-required none = record { at = λ w h. h }
  Keeps-required (some a) = record { at = λ w h. h }

  pub Keeps-on_row :
      {A B : Type 0} (o : Option A) (found : A → M B) (missing : M B)
      → ((a : A) → Keeps P (found a))
      → Keeps P missing
      → Keeps P (on_row o found missing)
  Keeps-on_row none found missing kf km = km
  Keeps-on_row (some a) found missing kf km = kf a

  pub Keeps-if :
      {A : Type 0} (b : Bool) (m n : M A) → Keeps P m → Keeps P n → Keeps P (if b then m else n)
  Keeps-if true m n km kn = km
  Keeps-if false m n km kn = kn

  pub Keeps-ignore : {A : Type 0} (m : M A) → Keeps P m → Keeps P (ignore m)
  Keeps-ignore m k = record { at = λ w h. k.at w h }

  pub Keeps-or_not_found : {A : Type 0} (m : M A) → Keeps P m → Keeps P (or_not_found m)
  Keeps-or_not_found m k = record { at = λ w h. k.at w h }

  Keeps-roll_back :
      {A : Type 0} (before : Db) (r : Result A × World)
      → P before
      → P r.1.db
      → P (roll_back before r).1.db
  Keeps-roll_back before (ok a, w) h k = k
  Keeps-roll_back before (err e, w) h k = h

  pub Keeps-transaction : {A : Type 0} (body : M A) → Keeps P body → Keeps P (transaction body)
  unfolding transaction
  Keeps-transaction body k = record {
    at = λ w h. Keeps-roll_back w.db _ h (
        (Keeps-bind attempt _ Keeps-attempt (λ _.
            Keeps-bind body _ k (λ a. Keeps-bind attempt _ Keeps-attempt (λ _. Keeps-pure a)))).at
          w h);
  }

pub ruleset keeps_rules = (
  Keeps-bind, Keeps-pure, Keeps-raise, Keeps-gets, Keeps-time_now, Keeps-attempt, Keeps-modify,
  Keeps-required, Keeps-on_row, Keeps-if, Keeps-ignore, Keeps-or_not_found, Keeps-transaction,
)
