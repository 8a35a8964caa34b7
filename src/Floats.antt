-- ===== src/Floats.antt =====
-- Floating point numbers, as the program uses them. Their arithmetic is the machine's: a type with
-- operations, of which the theorems assume nothing that they do not name.
use edmm.Prelude.{ℕ, String, Option, Bool}

pub record Floats : Type 1 where
  pub Float : Type 0
  -- The literal m / 10 ^ e: `decimal 750 1` is 75.0.
  pub decimal : ℕ → ℕ → Float
  pub add : Float → Float → Float
  pub sub : Float → Float → Float
  pub mul : Float → Float → Float
  pub div : Float → Float → Float
  pub lt : Float → Float → Bool
  pub eq : Float → Float → Bool
  -- `float(text)`; `none` is its ValueError.
  pub parse : String → Option Float
