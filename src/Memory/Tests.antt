-- ===== src/Memory/Tests.antt =====
-- Two owners with a limit of two memories.
use sql_rpa.Base.{
  ◌≡◌, refl, String, false, none, some, List, [], ◌∷◌, arith, codes, keep, min, map, ◌+◌,
}
use sql_rpa.SqlUtils.{double}
use sql_rpa.Text.{Text, words}
use sql_rpa.Memory.{
  Owner, Store, UserMemory, add_memory, count_active, delete_memory, deprecate, deprecate_oldest,
  build_fts_query, is_owned,
}
use sql_rpa.Memory.Capacity.{add_memory-count}
use sql_rpa.Memory.Owners.{Request, adds, clears, deletes, handle_all, handle_all-others, updates}

abbrev ann : Owner
ann = record { tenant_id = "acme"; owner_id = "ann" }

abbrev bob : Owner
bob = record { tenant_id = "acme"; owner_id = "bob" }

abbrev memory : Owner → String → UserMemory
memory o id = record {
  id = id;
  tenant_id = o.tenant_id;
  owner_id = o.owner_id;
  content = codes "tea";
  memory_type = "fact";
  deprecated = false;
}

abbrev store : Store
store = record {
  memories = memory ann "1" ∷ memory bob "2" ∷ memory ann "3" ∷ [];
  index = ("1", codes "tea") ∷ ("2", codes "tea") ∷ ("3", codes "tea") ∷ [];
}

-- The oldest memory of the owner goes, and its row in the index.
oldest_goes :
    (add_memory 2 ann "4" (codes "ham") "fact" store).index
    ≡ ("2", codes "tea") ∷ ("3", codes "tea") ∷ ("4", codes "ham") ∷ []
unfolding add_memory deprecate_oldest deprecate count_active
oldest_goes = refl

-- The deletion of a memory of another owner leaves it, but not its row in the index.
index_of_others : map (λ (id, _). id) (delete_memory ann "2" store).0.index ≡ "1" ∷ "3" ∷ []
unfolding delete_memory
index_of_others = refl

add_memory-count_example :
    count_active ann (add_memory 2 ann "4" (codes "ham") "fact" store).memories
    ≡ min (count_active ann store.memories + 1) 2
add_memory-count_example = add_memory-count 2 ann "4" (codes "ham") "fact" store (omega arith)

abbrev requests : List (Owner × Request)
requests =
    (ann, adds "4" (codes "ham") "fact")
    ∷ (ann, updates "2" (some (codes "gin")) none)
    ∷ (ann, deletes "2")
    ∷ (ann, clears)
    ∷ []

handle_all-others_example :
    keep (is_owned bob) (handle_all 2 requests store).memories ≡ keep (is_owned bob) store.memories
handle_all-others_example =
    handle_all-others 2 bob requests store (refl, (refl, (refl, (refl, tt))))

abbrev rank : Text → List (String × Text) → List String
rank query index = map (λ (id, _). id) index

abbrev query : Text
query = codes " tea* \"or\" "

a_query : build_fts_query query ≡ codes "\"tea\" OR \"\"\"or\"\"\""
unfolding build_fts_query words double
a_query = refl
