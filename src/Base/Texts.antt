-- ===== src/Base/Texts.antt =====
-- Texts: `+` on Go strings, and what the formatting verbs %s and %v print of a text.
use Prim.Native.String.{String, ◌++◌}
use mathlib.Core.Path.{◌≡◌}
use text.Mathlib.TextLemmas.{append_assoc, append_cancel_left}

infixr 65 ◌<>◌
abbrev pub ◌<>◌ : String → String → String
s <> t = s ++ t

pub <>_assoc : (s t u : String) → (s <> t) <> u ≡ s <> (t <> u)
<>_assoc = append_assoc

pub <>_cancel_left : (s t u : String) → s <> t ≡ s <> u → t ≡ u
<>_cancel_left = append_cancel_left
