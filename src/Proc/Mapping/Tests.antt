-- ===== src/Proc/Mapping/Tests.antt =====
-- A page more in an address space of one page, by `map_anonymous` of kernel/source/proc/process.cpp.
use sigma.Base.{◌≡◌, refl, arith, some, [], Outcome, ok, ◌>>=◌, block_size}
use sigma.Paging.Tests.{one_page, owner, one_page-IsSpace}
use sigma.Paging.Entries.{bit_test}
use sigma.Paging.Search.{div_ceil}
use sigma.Proc.Mapping.{Mappings, map_anonymous}
use sigma.Proc.Mapping.Range.{Filled, map_anonymous-Filled}

abbrev one_mapping : Mappings
one_mapping = record { store = one_page; frames = []; device_maps = [] }

map_anonymous-Filled_example :
    (o : Outcome Mappings) × (map_anonymous 0 [] 4096 8192 4096 0 3 one_mapping
      ≡ some (o >>= λ a'. ok (4096, a')))
    × Filled 4096 4096 (div_ceil 8192 block_size) one_mapping o
unfolding bit_test
map_anonymous-Filled_example =
    map_anonymous-Filled 0 [] 4096 8192 4096 3 owner one_mapping one_page-IsSpace (omega arith) refl
      refl refl (omega arith)
