-- ===== src/Proto/Rpc/Laws.antt =====
-- What the responses that the agent builds have in common, proto/src/rpc.rs.
use nobase_agent.Prelude.{
  ◌⊎◌, String, ◌<>◌, ◌≡◌, ◌≢◌, refl, none, true, false, Result, ok, err, arith, Result-cases, inl,
  inr,
}
use nobase_agent.Proto.Rpc.{RpcResponse, Failure, respond, reply, is_error, fault, invalid_params}

-- A response that carries exactly one of a result and an error, for the request `id`.
pub record Answers {Value : Type 0} (id : String) (r : RpcResponse Value) : Type 0 where
  pub version : r.jsonrpc ≡ "2.0"
  pub echoes : r.id ≡ id
  pub outcome :
      ((is_error r ≡ true) × (r.result ≡ none)) ⊎ ((is_error r ≡ false) × (r.result ≢ none))

pub Answers-respond :
    {Value : Type 0} (id : String) (r : Result Failure Value) → Answers id (respond id r)
unfolding respond is_error
Answers-respond id (ok v) = record {
  version = refl;
  echoes = refl;
  outcome = inr (refl, λ h. absurd (ground (arith, h)));
}
Answers-respond id (err f) = record { version = refl; echoes = refl; outcome = inl (refl, refl) }

pub Answers-reply :
    {Value A B : Type 0} (id : String) (decoded : Result String A) (body : A → Result Failure B)
    (value : B → Value)
    → Answers id (reply id decoded body value)
unfolding reply
Answers-reply id (err e) body value =
    Answers-respond id (err (fault invalid_params ("Invalid params: " <> e)))
Answers-reply id (ok req) body value = elim (Result-cases (body req)) [
  | inl (b, p) ↦ rw (p, reply) (Answers-respond id (ok (value b)))
  | inr (f, p) ↦ rw (p, reply) (Answers-respond id (err f))
]
