-- ===== src/OpenAi/RequestTranslator/Outcomes.antt =====
-- What a request is translated to, on every branch.
use text.Mathlib.TextLemmas.{append-eq-nil_iff}
use Prim.Native.String.{◌++◌}
use claude_agent_api.Common.{String, ◌≡◌, ◌≢◌, false, ◌==◌, arith, eq_iff}
use claude_agent_api.OpenAi.Models.{Models}

append-ne-nil : (s t : String) → (t == "") ≡ false → s ++ t ≢ ""
append-ne-nil s t h e =
    let (a, b) = (append-eq-nil_iff {p = s} {q = t}).0 e in ground (arith, h, (eq_iff t "").1 b)
