-- ===== src/Paging.antt =====
-- The pages of the stream contract and of the registry, computed by their loops as they are written:
-- `slice` of contracts/stream/src/lib.rs and `get_stream_ids_page` of
-- contracts/registry/src/storage.rs.
use stellar_stream_hive_cont.Base.{ℕ, ◌≤◌, ◌≡◌, min, Option, some, List, [], arith}
use stellar_stream_hive_cont.Base.Dict.{lookup}
use stellar_stream_hive_cont.Base.Lists.{length, get_elem?}
use stellar_stream_hive_cont.Base.Pages.{saturating_add, u32_max}
use stellar_stream_hive_cont.Base.Loops.{collect, collect-gather}
use stellar_stream_hive_cont.Stream.Queries.{slice}
use stellar_stream_hive_cont.Registry.Storage.{World, get_stream_count}
use stellar_stream_hive_cont.Registry.Contract.{get_streams_page, max_page_size, stream_count}

-- `slice` with its `while` loop, on `fuel`.
unfoldable pub slice_loop : ℕ → List ℕ → ℕ → ℕ → Option (List ℕ)
slice_loop fuel ids offset limit =
    let end = min (saturating_add offset (min limit max_page_size)) (length ids) in
    collect (get_elem? ids) fuel end offset []

-- `get_stream_ids_page` with its `while` loop, on `fuel`.
unfoldable pub stream_ids_page_loop : ℕ → ℕ → ℕ → World → Option (List ℕ)
stream_ids_page_loop fuel offset limit w =
    let count = get_stream_count w in
    let end = min (saturating_add offset limit) count in
    collect (λ index. lookup index w.stream_id_at) fuel end offset []

-- For a list of ids and a registry with no more elements than a `u32` counts, whatever the offset
-- and the limit that the caller gives: 51 tests of the loop's condition are enough for a page of
-- either contract, no increment of the index overflows, and the results are those of `slice` and
-- `get_streams_page`, which count their rounds beforehand.
pub pages_end :
    (ids : List ℕ) (offset limit : ℕ) (w : World)
    → length ids ≤ u32_max
    → stream_count w ≤ u32_max
    → (slice_loop 51 ids offset limit ≡ some (slice ids offset limit))
      × (stream_ids_page_loop 51 offset (min limit max_page_size) w
          ≡ some (get_streams_page offset limit w))
unfolding slice_loop stream_ids_page_loop
pages_end ids offset limit w h k = (
  collect-gather (get_elem? ids) 51
      (min (saturating_add offset (min limit max_page_size)) (length ids)) offset [] (omega arith)
      (omega arith),
  collect-gather (λ index. lookup index w.stream_id_at) 51
      (min (saturating_add offset (min limit max_page_size)) (stream_count w)) offset []
      (omega arith) (omega arith),
)
