-- ===== src/Prelude/Decimal.antt =====
-- The digits that strconv.Atoi and strconv.ParseUint of the standard library read.
use Prim.Native.Nat.{ℕ, ◌+◌, ◌-◌, ◌*◌}
use mathlib.Core.Bool.{◌&&◌}
use mathlib.Core.Option.{Option, none, some}
use mathlib.Core.List.{List, [], ◌∷◌}
use stitch.Prelude.Tests.{leb, if◌then◌else◌}

-- The number that decimal digits stand for, after `acc`.
unfoldable pub digits : ℕ → List ℕ → Option ℕ
digits acc [] = some acc
digits acc (c ∷ cs) =
    let rest = digits (10 * acc + (c - b'0')) cs in if leb b'0' c && leb c b'9' then rest else none
