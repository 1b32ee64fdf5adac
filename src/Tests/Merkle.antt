-- ===== src/Tests/Merkle.antt =====
-- The Merkle root at concrete inputs.
use doge_sdk.Base.{◌≡◌, refl}
use doge_sdk.Trees.Outcome.{ok}
use doge_sdk.Trees.Merkle.{get_split_point}
use doge_sdk.Tests.Crates.{crates}

get_split_point_run : get_split_point 100 ≡ ok 64
unfolding get_split_point
get_split_point_run = refl

get_split_point_exact_run : get_split_point 64 ≡ ok 32
unfolding get_split_point
get_split_point_exact_run = refl

get_split_point_one_run : get_split_point 1 ≡ ok 0
unfolding get_split_point
get_split_point_one_run = refl
