-- ===== src/Lookup.antt =====
-- src/f_lnp_resolve.c: the SQL functions that ask for a number, over the cache (Cache) and the
-- resolver (Resolver). A row's column that is NULL is `none`; a NULL result is `none`.
pub mod Laws
pub mod Safe
pub mod Delivery
pub mod Mocked
mod Tests
use mathlib.Core.Option
use yeti_pg_ext.Base.{Bytes, ℕ, List, Option, none, some, if◌then◌else◌}
use yeti_pg_ext.Base.Outcome.{Outcome, ok, error, fault}
use yeti_pg_ext.Base.CString.{until_nul}
use yeti_pg_ext.Cache.Table.{HashTable}
use yeti_pg_ext.Cache.{Entry, Cache, read_response, find}
use yeti_pg_ext.Resolver.Message.{Request, Message}
use yeti_pg_ext.Resolver.Texts.{error_text}
use yeti_pg_ext.Resolver.Resolve.{
  Call, Answer, answered, unanswered, raised, faulted, waiting, resolve,
}

-- How a call ends: a result, an ERROR, an access out of bounds, or waiting for the network.
pub data Ending {ℓ} (A : Type ℓ) : Type ℓ where
  gave : A → Ending A
  stopped crashed blocked : Ending A

-- What stands in the column `error`: a mocked text, or the resolver's.
pub data Failure : Type 0 where
  mocked : Bytes → Failure
  local : Message → Failure

-- Its bytes; `error` points to the buffer of the resolver or of the transport.
unfoldable pub failure_text : (ℕ → Bytes) → Failure → Bytes
failure_text strerror (mocked s) = s
failure_text strerror (local m) = error_text strerror m

pub record Row : Type 0 where
  pub lrn : Option Bytes
  pub tag : Option Bytes

pub record ErrorRow : Type 0 where
  pub lrn : Option Bytes
  pub tag : Option Bytes
  pub error : Option Failure

-- The request that the functions build; `resolve` gives it its identifier.
abbrev pub request_of : ℕ → ℕ → Bytes → Request
request_of type db_id payload = record { id = 0; type = type; db_id = db_id; payload = payload }

-- The call of `resolve` with `error` NULL.
abbrev pub asking : Call → ℕ → ℕ → Bytes → Call
asking c type db_id payload = record c { req = request_of type db_id payload; failure = none }

-- A column from a C string: the bytes before the first NUL.
abbrev pub column : Option Bytes → Option Bytes
column v = Option.map until_nul v

-- A mocked response, read as a C string, and whether it stands for an error.
unfoldable pub mocked_with {ℓ} : {A : Type ℓ} → Entry → (Bytes → A) → (Bytes → A) → Ending A
mocked_with e on_error on_success = elim (read_response e) [
  | ok s ↦ gave (if e.is_error then on_error s else on_success s)
  | error ↦ stopped
  | fault ↦ crashed
]

unfoldable pub cnam_result : Answer → Ending (Option Bytes)
cnam_result (answered r) = elim r.val [ none ↦ crashed | some v ↦ gave (some v) ]
cnam_result (unanswered e) = gave none
cnam_result raised = stopped
cnam_result faulted = crashed
cnam_result waiting = blocked

unfoldable pub tagged_result : Answer → Ending (Option Row)
tagged_result (answered r) = gave (some (record { lrn = column r.val_1; tag = column r.val_2 }))
tagged_result (unanswered e) = gave none
tagged_result raised = stopped
tagged_result faulted = crashed
tagged_result waiting = blocked

unfoldable pub error_row_result : Answer → Ending ErrorRow
error_row_result (answered r) =
    gave (record { lrn = column r.val_1; tag = column r.val_2; error = none })
error_row_result (unanswered e) =
    gave (record { lrn = none; tag = none; error = Option.map local e })
error_row_result raised = stopped
error_row_result faulted = crashed
error_row_result waiting = blocked

module _ (H : HashTable Bytes Entry) where
  unfoldable pub lnp_resolve_cnam : Cache H → Call → ℕ → Bytes → Ending (Option Bytes) × Call
  unfolding mocked_with cnam_result find
  lnp_resolve_cnam cache c db_id payload = elim (find H cache payload) [
    | some e ↦ (mocked_with e (λ s. none) (λ s. some s), c)
    | none ↦ let (a, c') = resolve (asking c 1 db_id payload) in (cnam_result a, c')
  ]

  unfoldable pub lnp_resolve_tagged : Cache H → Call → ℕ → Bytes → Ending (Option Row) × Call
  unfolding mocked_with tagged_result find
  lnp_resolve_tagged cache c db_id payload = elim (find H cache payload) [
    | some e ↦ (mocked_with e (λ s. none) (λ s. some (record { lrn = some s; tag = none })), c)
    | none ↦ let (a, c') = resolve (asking c 0 db_id payload) in (tagged_result a, c')
  ]

  unfoldable pub lnp_resolve_tagged_with_error : Cache H → Call → ℕ → Bytes → Ending ErrorRow × Call
  unfolding mocked_with error_row_result find
  lnp_resolve_tagged_with_error cache c db_id payload = elim (find H cache payload) [
    | some e ↦ (
      mocked_with e (λ s. record { lrn = none; tag = none; error = some (mocked s) })
          (λ s. record { lrn = some s; tag = none; error = none }),
      c,
    )
    | none ↦ let (a, c') = resolve (asking c 0 db_id payload) in (error_row_result a, c')
  ]
