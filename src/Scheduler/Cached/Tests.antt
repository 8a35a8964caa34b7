-- ===== src/Scheduler/Cached/Tests.antt =====
-- Tests of the record of the known requests, and its theorem at a concrete input.
use edmm.Prelude.{ℕ, String, ◌≡◌, refl, List, [], ◌∷◌, some, String_discrete}
use edmm.Prelude.Dict.{Dict}
use edmm.Prelude.Effect.{Outcome, ok, raised}
use edmm.Scheduler.State.{Error, key_error, assertion_error}
use edmm.Scheduler.Cached.{CachedRequestData, no_data, make_cached_request_data}
use edmm.Scheduler.Cached.Columns
use edmm.Scheduler.Cached.Columns.{Made}
use edmm.Scheduler.Tests.{lists, one_runs}

abbrev scheduled : Dict String ℕ
scheduled = ("r", 1) ∷ []

abbrev new_blocks : Dict String (List (List ℕ))
new_blocks = ("r", (7 ∷ []) ∷ []) ∷ []

abbrev cached : Dict String (List (List ℕ)) → Outcome Error CachedRequestData
cached = λ blocks.
    make_cached_request_data lists (List (List ℕ)) some one_runs scheduled [] blocks (1 ∷ []) []

one-cached :
    cached new_blocks
    ≡ ok (record {
      req_ids = "r" ∷ [];
      resumed_req_ids = [];
      new_token_ids = (4 ∷ []) ∷ [];
      all_token_ids = [];
      new_block_ids = some ((7 ∷ []) ∷ []) ∷ [];
      num_computed_tokens = 3 ∷ [];
      num_output_tokens = 1 ∷ [];
    })
unfolding make_cached_request_data String_discrete
one-cached = refl

none-cached : cached [] ≡ raised key_error
unfolding make_cached_request_data String_discrete
none-cached = refl

-- A request that was scheduled in the step before does not come back.
twice-cached :
    make_cached_request_data lists (List (List ℕ)) some one_runs scheduled [] new_blocks [] (1 ∷ [])
    ≡ raised assertion_error
unfolding make_cached_request_data String_discrete
twice-cached = refl

make_cached-Made_example :
    Made lists (List (List ℕ)) some one_runs scheduled [] new_blocks 1 0 (1 ∷ []) no_data (
      make_cached_request_data lists
        (List (List ℕ))
        some
        one_runs
        scheduled
        []
        new_blocks
        (1 ∷ [])
        [])
make_cached-Made_example =
    Columns.make_cached-Made lists (List (List ℕ)) some one_runs scheduled [] new_blocks (1 ∷ []) []
