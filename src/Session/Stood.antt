-- ===== src/Session/Stood.antt =====
-- A session all of whose calls had arguments that they stand.
use yeti_pg_ext.Base.{Bytes, ℕ, ◌^◌, ◌<◌, Bool, Option, ◌≡◌}
use yeti_pg_ext.Cache.{Entry}
use yeti_pg_ext.Cache.Table.{HashTable}
use yeti_pg_ext.Lookup.{Ending}
use yeti_pg_ext.Tbf.{Key, Bucket, Floats}
use yeti_pg_ext.Extension.{Process}
use yeti_pg_ext.Session.{Statement, Value, run}
use yeti_pg_ext.Session.Safety.{Stands}

module _ {Rate : Type 0} (F : Floats Rate) (H : HashTable Bytes Entry) (T : HashTable Key Bucket)
    (is_full : T.T → Bool) (inet_aton : Bytes → Option ℕ) where
  -- As `Reach`, by arguments that the calls stand, whatever the calls do.
  pub data Stood (p : Process H T) : Process H T → Type 0 where
    fresh : Stood p p
    stood :
        {q r : Process H T}
        → (s : Statement Rate) → (e : Ending Value) → Stood p q
        → s.world.rand < 2 ^ 31
        → Stands F H T is_full inet_aton s.world s.command
        → run F H T is_full inet_aton q s ≡ (e, r)
        → Stood p r
    meddled :
        {q r : Process H T} → (t : Option T.T) → Stood p q → r ≡ record q { tbf = t } → Stood p r
