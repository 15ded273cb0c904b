-- ===== src/Proto/Rpc.antt =====
-- proto/src/rpc.rs: JSON-RPC 2.0 envelopes. `Value` stands for `serde_json::Value`.
pub mod Laws
use nobase_agent.Prelude.{
  String, ◌<>◌, Bool, true, false, Option, none, some, Result, ok, err, ℤ, neg,
}

pub record RpcRequest (Value : Type 0) : Type 0 where
  pub jsonrpc : String
  pub id : Option String
  pub method : String
  pub params : Value

pub record RpcError (Value : Type 0) : Type 0 where
  pub code : ℤ
  pub message : String
  pub payload : Option Value

pub record RpcResponse (Value : Type 0) : Type 0 where
  pub jsonrpc : String
  pub id : String
  pub result : Option Value
  pub error : Option (RpcError Value)

-- Well-known error codes.
abbrev pub method_not_found : ℤ
method_not_found = neg 32601

abbrev pub invalid_params : ℤ
invalid_params = neg 32602

-- The code -32000, which the dispatcher writes out.
abbrev pub server_error : ℤ
server_error = neg 32000

abbrev pub agent_offline : ℤ
agent_offline = neg 32001

abbrev pub agent_timeout : ℤ
agent_timeout = neg 32002

abbrev pub command_failed : ℤ
command_failed = neg 32003

module _ {Value : Type 0} where
  unfoldable pub new : String → String → Value → RpcRequest Value
  new id method params = record { jsonrpc = "2.0"; id = some id; method = method; params = params }

  unfoldable pub notification : String → Value → RpcRequest Value
  notification method params = record {
    jsonrpc = "2.0";
    id = none;
    method = method;
    params = params;
  }

  unfoldable pub success : String → Value → RpcResponse Value
  success id result = record { jsonrpc = "2.0"; id = id; result = some result; error = none }

  unfoldable pub error : String → ℤ → String → RpcResponse Value
  error id code message = record {
    jsonrpc = "2.0";
    id = id;
    result = none;
    error = some (record { code = code; message = message; payload = none });
  }

  unfoldable pub error_with_data : String → ℤ → String → Value → RpcResponse Value
  error_with_data id code message payload = record {
    jsonrpc = "2.0";
    id = id;
    result = none;
    error = some (record { code = code; message = message; payload = some payload });
  }

  unfoldable pub is_error : RpcResponse Value → Bool
  is_error response = elim response.error [ none ↦ false | some _ ↦ true ]

-- What a handler's body comes to: a code and a message, or a payload.
pub record Failure : Type 0 where
  pub code : ℤ
  pub message : String

abbrev pub fault : ℤ → String → Failure
fault code message = record { code = code; message = message }

-- The response that a handler with the id `id` returns for that.
unfoldable pub respond : {Value : Type 0} → String → Result Failure Value → RpcResponse Value
unfolding success error
respond id (ok value) = success id value
respond id (err f) = error id f.code f.message

-- A handler that decodes its parameters, runs its body on them, and answers with the value of what
-- that comes to.
unfoldable pub reply :
    {Value A B : Type 0}
    → String
    → Result String A
    → (A → Result Failure B)
    → (B → Value)
    → RpcResponse Value
unfolding respond
reply id (err e) body value = respond id (err (fault invalid_params ("Invalid params: " <> e)))
reply id (ok req) body value = elim (body req) [
  | err f ↦ respond id (err f)
  | ok b ↦ respond id (ok (value b))
]

-- Unified message type: what an incoming text is parsed to.
pub data RpcMessage (Value : Type 0) : Type 0 where
  request : RpcRequest Value → RpcMessage Value
  response : RpcResponse Value → RpcMessage Value
