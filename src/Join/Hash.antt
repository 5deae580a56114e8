-- ===== src/Join/Hash.antt =====
-- `HashJoin` of join/join.go. `joinTable` is an association list; the order in which the last loop
-- ranges over it is an argument. The keys are functions: where the source passes nil, the model
-- passes the identity.
use k_elda_archive.Base.{
  List, [], ◌∷◌, ◌++◌, Option, none, some, MapRange, get, put, delete, values,
}
use k_elda_archive.Join.{Pair, Joined}

-- The variables of the loop over the right slice.
pub record Matching (K L R : Type 0) : Type 0 where
  pub join_table : List (K × L)
  pub pairs : List (Pair L R)
  pub lonely_rights : List R

module _ {K L : Type 0} (dec : Discrete K) where
  -- The loop that enters the left elements in the table, a later one over an earlier one.
  unfoldable pub fill : (L → K) → List L → List (K × L) → List (K × L)
  fill l_key [] table = table
  fill l_key (l ∷ ls) table = fill l_key ls (put dec (l_key l) l table)

module _ {K L R : Type 0} (dec : Discrete K) where
  -- The body of the loop over the right slice, by what the table holds under the key.
  unfoldable pub query : K → R → Option L → Matching K L R → Matching K L R
  query k r (some entry) st = record st {
    pairs = st.pairs ++ record { l = entry; r = r } ∷ [];
    join_table = delete dec k st.join_table;
  }
  query k r none st = record st { lonely_rights = st.lonely_rights ++ r ∷ [] }

  unfoldable pub match_rights : (R → K) → List R → Matching K L R → Matching K L R
  unfolding query
  match_rights r_key [] st = st
  match_rights r_key (r ∷ rs) st =
      match_rights r_key rs (query (r_key r) r (get dec (r_key r) st.join_table) st)

  unfoldable pub matched : (L → K) → (R → K) → List L → List R → Matching K L R
  unfolding fill match_rights
  matched l_key r_key lefts rights =
      match_rights r_key rights
        (record { join_table = fill dec l_key lefts []; pairs = []; lonely_rights = [] })

  unfoldable pub hash_join : MapRange (K × L) → (L → K) → (R → K) → List L → List R → Joined L R
  unfolding matched
  hash_join order l_key r_key lefts rights =
      let st = matched l_key r_key lefts rights in
      record {
        pairs = st.pairs;
        lonely_lefts = values (order.range st.join_table);
        lonely_rights = st.lonely_rights;
      }
