-- ===== src/CacheEngine/Swaps.antt =====
-- Swapping in and out.
use edmm.Prelude.{ℕ, zero, suc, List, [], ◌∷◌, map, Bool, ◌≡◌, refl, ap}
use edmm.Torch.{Torch}
use edmm.CacheEngine.{
  Config, Backend, CacheEngine, Transfer, swap_blocks, copy_blocks, swap_layers, swap_in, swap_out,
}

module _ (t : Torch) (b : Backend t) where
  -- The same call, in the other direction.
  abbrev pub reverse : Transfer t b → Transfer t b
  reverse (swap_blocks x y mapping) = swap_blocks y x mapping
  reverse (copy_blocks xs mapping) = copy_blocks xs mapping

  abbrev reverse_all : List (Transfer t b) × Bool → List (Transfer t b) × Bool
  reverse_all (calls, done) = (map reverse calls, done)

  swap_layers-reverse :
      (n : ℕ) (xs ys : List t.Array) (mapping : b.Mapping)
      → swap_layers t b n ys xs mapping ≡ reverse_all (swap_layers t b n xs ys mapping)
  unfolding swap_layers
  swap_layers-reverse zero xs ys mapping = refl
  swap_layers-reverse (suc n) [] [] mapping = refl
  swap_layers-reverse (suc n) [] (y ∷ ys) mapping = refl
  swap_layers-reverse (suc n) (x ∷ xs) [] mapping = refl
  swap_layers-reverse (suc n) (x ∷ xs) (y ∷ ys) mapping =
      ap (λ r. (swap_blocks y x mapping ∷ r.0, r.1)) (swap_layers-reverse n xs ys mapping)

  -- Swapping out makes the calls of swapping in, layer by layer, with the source and the target
  -- exchanged, and ends as it does.
  pub swap_out-swap_in :
      (c : Config t) (e : CacheEngine t) (mapping : b.Mapping)
      → let (calls, done) = swap_in t b c e mapping in
        swap_out t b c e mapping ≡ (map reverse calls, done)
  unfolding swap_in swap_out
  swap_out-swap_in c e mapping = swap_layers-reverse c.num_attention_layers _ _ mapping
