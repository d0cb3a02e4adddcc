-- ===== src/Rpc.antt =====
-- The outcomes of the calls of proto/cache.proto: the generated response types, and the statuses
-- that the handlers answer with, without their messages.
use self_healing_distributed.Prelude.{Bool, Option}
use self_healing_distributed.Types.{Bytes}

pub data Status : Type 0 where
  unavailable internal unimplemented : Status

pub data Result {ℓ} (A : Type ℓ) : Type ℓ where
  ok : A → Result A
  err : Status → Result A

pub record GetResponse : Type 0 where
  pub value : Option Bytes
  pub found : Bool
