-- ===== src/Common/Texts.antt =====
-- Texts, by which the source's maps are keyed.
use Prim.Native.Nat.{ℕ}
use mathlib.Core.List.{List}
use native.Mathlib.Decide.{ℕ_discrete}

-- A text is the list of its codes.
abbrev pub Text : Type 0
Text = List ℕ

pub Text-discrete : Discrete Text
Text-discrete = hlevel ℕ_discrete
