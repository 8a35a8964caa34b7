-- ===== src/Benchmark/Characters.antt =====
-- A tokenizer for the tests: one token for each character.
use Prim.Native.String.{String, [], ◌∷◌, ◌++◌}
use text.Mathlib.TextLemmas.{cons-append, nil-append}
use mathlib.Core.List.{List, [] as nil, ◌∷◌ as link}
use edmm.Prelude.{ℕ, ◌+◌, ◌≡◌, arith, length}

unfoldable pub encode : String → List ℕ
encode [] = nil
encode (c ∷ text) = link 1 (encode text)

pub length-encode-append :
    (s t : String) → length (encode (s ++ t)) ≡ length (encode s) + length (encode t)
unfolding encode
length-encode-append [] t = rw (nil-append t) (omega arith)
length-encode-append (c ∷ s) t = rw (cons-append c s t) (omega (arith, length-encode-append s t))
