-- ===== src/Resolver/Failover.antt =====
-- What a call of `resolve` ends in.
use yeti_pg_ext.Base.{ℕ, ◌≡◌, refl, inl, inr, ◌==◌, Bool-cases, Option-cases}
use yeti_pg_ext.Resolver.Endpoints.{endpoints_count}
use yeti_pg_ext.Resolver.Resolve.{Call, Answer, gen_request_id, move_current, give_up, resolve}
use yeti_pg_ext.Resolver.Answers.{IsFor, receive-IsFor}
use yeti_pg_ext.Resolver.Rule.{IsKept, attempts-kept}

-- The answer is for the call's request, which has this type.
abbrev FitsType : ℕ → Answer → Call → Type 0
FitsType type a c = IsFor c.req a × (c.req.type ≡ type)

give_up-FitsType :
    (type : ℕ) (c : Call) → c.req.type ≡ type → FitsType type (give_up c).0 (give_up c).1
unfolding give_up
give_up-FitsType type c h = elim (Option-cases c.failure) [
  | inl e ↦ simp (e, give_up) (tt, h)
  | inr (m, e) ↦ simp (e, give_up) (tt, h)
]

type-IsKept : (type : ℕ) → IsKept (λ c. c.req.type ≡ type) (FitsType type)
unfolding gen_request_id
type-IsKept type = record {
  numbered = λ c h. h;
  noted = λ c ep m sends h. h;
  polled = λ c polls h. h;
  unpolled = λ c e h. h;
  expired = λ c h. h;
  moved = λ c h. h;
  unprepared = λ c h. (tt, h);
  unsent = λ c h. (tt, h);
  failed = λ c f h. (tt, h);
  waits = λ c h. (tt, h);
  received = λ c h. (receive-IsFor c.req c.world.recvs, h);
  gave_up = give_up-FitsType type;
}

abbrev pub ResultIsFor : ℕ → Answer × Call → Type 0
ResultIsFor type (a, c) = IsFor c.req a × (c.req.type ≡ type)

-- Whatever the system gives: an answer that `resolve` hands out is no bare confirmation, and has
-- the identifier of the request that was sent last; to a tagged request it has the number, to a
-- cnam request the text. The call keeps the request's type.
pub resolve-IsFor : (c : Call) → ResultIsFor c.req.type (resolve c)
unfolding resolve
resolve-IsFor c = elim (Bool-cases (endpoints_count c.st == 0)) [
  | inl e ↦ simp e (tt, refl)
  | inr e ↦ simp e (
      attempts-kept (type-IsKept c.req.type) (endpoints_count c.st)
        (record c { st = move_current c.st }) refl)
]
