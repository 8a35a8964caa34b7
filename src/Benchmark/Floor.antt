-- ===== src/Benchmark/Floor.antt =====
-- The loop of `repeat_to_token_floor`.
use Prim.Native.String.{◌++◌ as str_append}
use edmm.Prelude.{
  ℕ, zero, suc, ◌+◌, ◌/◌, ◌≤◌, ◌<◌, String, ◌≡◌, arith, length, ltb, inl, inr, Bool-cases, if_true,
  if_false, ◌∙◌,
}
use edmm.Prelude.Effect.{ok}
use edmm.Benchmark.Machine.{Machine}
use edmm.Benchmark.Inputs.{repeat, lengthen, repeat_to_token_floor, tokens_per_block}

module _ (m : Machine) (block : String)
    (grows : (text : String) → length (m.encode text) < length (m.encode (str_append text block)))
    (num_tokens : ℕ) where
  lengthen-Returns :
      (fuel : ℕ) (text : String)
      → 0 < fuel
      → num_tokens < fuel + length (m.encode text)
      → (result : String) × (lengthen m fuel block num_tokens text ≡ ok result)
        × (num_tokens ≤ length (m.encode result))
  unfolding lengthen
  lengthen-Returns zero text some_left h = absurd (omega arith)
  lengthen-Returns (suc fuel) text some_left h =
      elim (Bool-cases (ltb (length (m.encode text)) num_tokens)) [
        | inl short ↦
            let (result, e, long) =
              lengthen-Returns fuel (str_append text block) (ground (arith, short))
                (omega (arith, grows text)) in
            (result, if_true _ _ short ∙ e, long)
        | inr long ↦ (text, if_false _ _ long, ground arith)
      ]

  -- If another block always adds to the tokens, a text is returned that has at least the wanted
  -- number of tokens, in at most one round of the loop more than that number.
  pub repeat_to_token_floor-Returns :
      (result : String) × (repeat_to_token_floor m (suc num_tokens) block num_tokens ≡ ok result)
      × (num_tokens ≤ length (m.encode result))
  unfolding repeat_to_token_floor
  repeat_to_token_floor-Returns =
      lengthen-Returns (suc num_tokens) (repeat (num_tokens / tokens_per_block m block + 2) block)
        (omega arith) (omega arith)
