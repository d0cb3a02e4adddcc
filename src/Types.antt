-- ===== src/Types.antt =====
-- Identities, addresses and clock readings that every part of the program shares
-- (crates/common/src/lib.rs). A `Uuid` is its 128-bit number; a `String`, `Bytes` or `Vec<u8>` is
-- the list of its bytes; an `Instant` is a count of nanoseconds since the clock's origin and a
-- `Duration` is a count of nanoseconds.
use self_healing_distributed.Prelude.{
  ℕ, ◌+◌, ◌*◌, ◌/◌, ◌%◌, ◌^◌, ◌≡◌, Option, some, List, ℕ_discrete,
}
use Prim.Native.Char.{code}
use Prim.Native.String.{String}
use mathlib.Core.List.{[], ◌∷◌}

abbrev pub NodeId : Type 0
NodeId = ℕ

abbrev pub Bytes : Type 0
Bytes = List ℕ

-- The bytes of an ASCII literal.
abbrev pub codes : String → Bytes
codes String.[] = []
codes (String.◌∷◌ c s) = code c ∷ codes s

unfoldable pub Bytes-discrete : Discrete Bytes
Bytes-discrete = hlevel ℕ_discrete

pub record NodeInfo : Type 0 where
  pub id : NodeId
  pub addr : Bytes

abbrev pub Instant : Type 0
Instant = ℕ

abbrev pub Duration : Type 0
Duration = ℕ

-- `Duration::from_secs`, `Duration::from_millis` and `as_millis() as u64`.
abbrev pub from_secs : ℕ → Duration
from_secs s = s * 1000000000

abbrev pub from_millis : ℕ → Duration
from_millis ms = ms * 1000000

abbrev pub as_secs : Duration → ℕ
as_secs d = d / 1000000000

abbrev pub as_millis : Duration → ℕ
as_millis d = d / 1000000 % 2 ^ 64

-- `+= 1` on a `u64` in a release build.
abbrev pub next_u64 : ℕ → ℕ
next_u64 n = (n + 1) % 2 ^ 64

-- `Uuid::to_string` and `Uuid::parse_str`, of the crate uuid.
pub record UuidText : Type 0 where
  pub to_string : NodeId → Bytes
  pub parse_str : Bytes → Option NodeId
  pub parse_str-to_string : (id : NodeId) → parse_str (to_string id) ≡ some id
