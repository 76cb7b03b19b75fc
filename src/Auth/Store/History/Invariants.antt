-- ===== src/Auth/Store/History/Invariants.antt =====
-- What every call keeps, every sequence of calls keeps.
use zenmind_official_server.Base.{List, [], ◌∷◌, All}
use zenmind_official_server.Auth.Store.Defs.{Db, Collation}
use zenmind_official_server.Auth.Store.Monad.{M, World}
use zenmind_official_server.Auth.Store.Keeps.{Keeps}
use zenmind_official_server.Auth.Store.History.{Op, perform, report, Event, world_at, final}

pub Keeps-report :
    {A : Type 0} (P : Db → Type 0) (m : M A) (w : World) → Keeps P m → P w.db → P (report m w).1
Keeps-report P m w k h = k.at w h

module _ (c : Collation) (P : Db → Type 0) (Allowed : Op → Type 0) where
  pub invariant-final :
      ((op : Op) (w : World) → Allowed op → P w.db → P (perform c op w).1)
      → (db : Db) (es : List Event) → All (λ e. Allowed e.op) es
      → P db
      → P (final c db es)
  unfolding final
  invariant-final step db [] a h = h
  invariant-final step db (e ∷ es) (a, rest) h =
      invariant-final step (perform c e.op (world_at db e)).1 es rest
        (step e.op (world_at db e) a h)

pub no_condition : (es : List Event) → All (λ e. Unit {0}) es
no_condition [] = tt
no_condition (e ∷ es) = (tt, no_condition es)
