-- ===== src/Memory.antt =====
-- backend/memory/store.py: `MemoryStore`. Rows stand in the order of their creation. The full-text
-- index is the table of its rows; which of them match a query, in the order of their rank, is a
-- parameter.
pub mod Capacity
pub mod Owners
pub mod Query
mod Tests
use sql_rpa.Base.{
  ℕ, zero, suc, ◌+◌, ◌-◌, String, Bool, true, false, ◌&&◌, not, Option, none, some, List, [], ◌∷◌,
  ◌++◌, leb, map, keep, find, take, length, str_eq, str_in, is_some, any, codes, ◌==◌, given,
  if◌then◌else◌,
}
use sql_rpa.SqlUtils.{double}
use sql_rpa.Text.{Text, strip, words}

-- The tenant and the owner of a `MemoryStore`.
pub record Owner : Type 0 where
  pub tenant_id : String
  pub owner_id : String

-- `UserMemory`
pub record UserMemory : Type 0 where
  pub id : String
  pub tenant_id : String
  pub owner_id : String
  pub content : Text
  pub memory_type : String
  pub deprecated : Bool

-- `user_memories` and `user_memories_fts`.
pub record Store : Type 0 where
  pub memories : List UserMemory
  pub index : List (String × Text)

abbrev pub is_owned : Owner → UserMemory → Bool
is_owned o m = str_eq m.tenant_id o.tenant_id && str_eq m.owner_id o.owner_id

abbrev pub is_active : Owner → UserMemory → Bool
is_active o m = not m.deprecated && is_owned o m

-- `_count_active_in`
pub count_active : Owner → List UserMemory → ℕ
count_active o ms = length (keep (is_active o) ms)

-- `_deprecate_oldest_in`: the rows, and the rows of the index without their ids.
abbrev pub oldest : Owner → ℕ → List UserMemory → List String
oldest o n ms = map (λ m. m.id) (take n (keep (is_active o) ms))

pub deprecate : Owner → ℕ → List UserMemory → List UserMemory
deprecate o zero ms = ms
deprecate o (suc n) [] = []
deprecate o (suc n) (m ∷ ms) =
    let here = record m { deprecated = true } ∷ deprecate o n ms in
    let later = m ∷ deprecate o (suc n) ms in if is_active o m then here else later

abbrev pub without : List String → List (String × Text) → List (String × Text)
without ids index = keep (λ (id, _). not (str_in id ids)) index

pub deprecate_oldest : Owner → ℕ → Store → Store
unfolding deprecate
deprecate_oldest o n s = record {
  memories = deprecate o n s.memories;
  index = without (oldest o n s.memories) s.index;
}

abbrev new_memory : Owner → String → Text → String → UserMemory
new_memory o id content memory_type = record {
  id = id;
  tenant_id = o.tenant_id;
  owner_id = o.owner_id;
  content = content;
  memory_type = memory_type;
  deprecated = false;
}

abbrev pub add_row : Owner → String → Text → String → Store → Store
add_row o id content memory_type s = record {
  memories = s.memories ++ new_memory o id content memory_type ∷ [];
  index = s.index ++ (id, content) ∷ [];
}

-- `add_memory`, with `settings.memory_max_count` and the fresh id.
pub add_memory : ℕ → Owner → String → Text → String → Store → Store
unfolding deprecate_oldest count_active
add_memory max_count o id content memory_type s = add_row o id content memory_type (
    if leb max_count (count_active o s.memories)
    then deprecate_oldest o (count_active o s.memories - max_count + 1) s
    else s)

abbrev is_own : Owner → String → UserMemory → Bool
is_own o id m = str_eq m.id id && is_owned o m

-- `update_memory`: the answer is whether a row was changed.
pub update_memory : Owner → String → Option Text → Option Bool → Store → Store × Bool
update_memory o id none none s = (s, false)
update_memory o id content deprecated s = (
  record s {
    memories =
        map
          (λ m.
            if is_own o id m
            then record m {
              content = given content m.content;
              deprecated = given deprecated m.deprecated;
            }
            else m)
          s.memories;
  },
  is_some (find (is_own o id) s.memories),
)

-- `delete_memory`
pub delete_memory : Owner → String → Store → Store × Bool
delete_memory o id s = (
  record {
    memories = keep (λ m. not (is_own o id m)) s.memories;
    index = without (id ∷ []) s.index;
  },
  is_some (find (is_own o id) s.memories),
)

-- `clear_all`
abbrev own_ids : Owner → List UserMemory → List String
own_ids o ms = map (λ m. m.id) (keep (is_owned o) ms)

pub clear_all : Owner → Store → Store × ℕ
clear_all o s = (
  record {
    memories = keep (λ m. not (is_owned o m)) s.memories;
    index = without (own_ids o s.memories) s.index;
  },
  length (keep (is_owned o) s.memories),
)

-- `_build_fts_query`: the words of a query without the signs of the index's language, each in quotes.
abbrev pub is_sign : ℕ → Bool
is_sign c = any (λ d. c == d) (codes "*(){}[]&|^~")

pub any_of : List Text → Text
any_of [] = codes "\"\""
any_of (t ∷ []) = b'"' ∷ double b'"' t ++ b'"' ∷ []
any_of (t ∷ u ∷ ts) = b'"' ∷ double b'"' t ++ b'"' ∷ (codes " OR " ++ any_of (u ∷ ts))

pub build_fts_query : Text → Text
unfolding any_of
build_fts_query query = any_of (words (map (λ c. if is_sign c then b' ' else c) query))

abbrev pub is_blank : Text → Bool
is_blank [] = true
is_blank (_ ∷ _) = false

-- `search_memories`, `list_memories` and `get_memory`. `rank` gives the ids of the rows of the index
-- that match.
abbrev pub joined : Owner → List UserMemory → List String → List UserMemory
joined o ms [] = []
joined o ms (id ∷ ids) = elim (find (λ m. str_eq m.id id) ms) [
  | none ↦ joined o ms ids
  | some m ↦ if is_active o m then m ∷ joined o ms ids else joined o ms ids
]

module _ (rank : Text → List (String × Text) → List String) where
  pub search_memories : Owner → Text → ℕ → Store → List UserMemory
  unfolding build_fts_query
  search_memories o query top_k s =
      if is_blank (strip query)
      then []
      else take top_k (joined o s.memories (rank (build_fts_query query) s.index))

pub list_memories : Owner → Bool → Store → List UserMemory
list_memories o include_deprecated s =
    if include_deprecated then keep (is_owned o) s.memories else keep (is_active o) s.memories

pub get_memory : Owner → String → Store → Option UserMemory
get_memory o id s = find (is_own o id) s.memories
