-- ===== src/Rules/Paging/Reason.antt =====
-- rules/match.ts: the kind of a reason such as `keyword:commit`.
use Prim.Native.String.{String, [], ◌∷◌}
use text.Mathlib.Text.{◌==◌}
use code_butler.Prelude.{if◌then◌else◌}

-- `reason.split(":")[0]`
unfoldable pub reason_kind : String → String
reason_kind [] = []
reason_kind (c ∷ s) = let rest = reason_kind s in if (c ∷ []) == ":" then [] else c ∷ rest
