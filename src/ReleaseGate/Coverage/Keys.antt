-- ===== src/ReleaseGate/Coverage/Keys.antt =====
-- The `scanScope` map of `evaluateReleaseGate`: lemmas on its keys.
use Prim.Native.String.{[], ◌∷◌}
use Prim.Native.Char.{code}
use guardianbot.Prelude.{String, ℕ, ◌≡◌, arith, sym, ◌∙◌, ap}
use guardianbot.ReleaseGate.Types.{Source, dast, image, sast, unknown}
use guardianbot.ReleaseGate.Coverage.{scope_key}
use text.Mathlib.TextLemmas.{cons-append}

first_code : String → ℕ
first_code [] = 0
first_code (c ∷ s) = code c

abbrev source_code : Source → ℕ
source_code dast = b'd'
source_code image = b'i'
source_code sast = b's'
source_code unknown = b'u'

first_code-scope_key : (s : Source) (t : String) → first_code (scope_key s t) ≡ source_code s
unfolding first_code
first_code-scope_key dast t = rw cons-append
first_code-scope_key image t = rw cons-append
first_code-scope_key sast t = rw cons-append
first_code-scope_key unknown t = rw cons-append

source_code-injective : (a b : Source) → source_code a ≡ source_code b → a ≡ b
source_code-injective a b h = ground arith

pub scope_key-injective : (a b : Source) (s t : String) → scope_key a s ≡ scope_key b t → a ≡ b
scope_key-injective a b s t h =
    source_code-injective a b
      (sym (first_code-scope_key a s) ∙ ap first_code h ∙ first_code-scope_key b t)
